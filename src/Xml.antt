-- ===== src/Xml.antt =====
-- The libxml2 documents of server/edit-config.c and server/ovs-data.c, as far as the code reads
-- them: a node's type, name, namespace, text content, `operation` attribute and children. Parent
-- pointers are the list of the ancestors, the parent first; where it ends stands the document.
use Prim.Native.Nat.{ℕ, suc, max}
use of_config.Base.{
  String, Text, Bool, true, false, Option, none, some, List, [], ◌∷◌, str_eq, find?, ◌&&◌,
}

mutual
  pub data Node : Type 0 where
    -- name, href of the namespace, value of the attribute `operation` of NETCONF's namespace
    element : String → Option Text → Option Text → Forest → Node
    text : Text → Node
    -- a comment, a processing instruction or a CDATA section, with its name and content
    other : String → Text → Node

  pub data Forest : Type 0 where
    nil : Forest
    cons : Node → Forest → Forest

abbrev pub nodes : Forest → List Node
nodes nil = []
nodes (cons n f) = n ∷ nodes f

abbrev pub name : Node → String
name (element x ns op f) = x
name (text t) = "text"
name (other x t) = x

abbrev pub ns_href : Node → Option Text
ns_href (element x ns op f) = ns
ns_href (text t) = none
ns_href (other x t) = none

-- `xmlGetNsProp(node, "operation", NC_NS_BASE10)`
abbrev pub operation : Node → Option Text
operation (element x ns op f) = op
operation (text t) = none
operation (other x t) = none

abbrev pub children : Node → List Node
children (element x ns op f) = nodes f
children (text t) = []
children (other x t) = []

-- An element has no content of its own.
abbrev pub content : Node → Option Text
content (element x ns op f) = none
content (text t) = some t
content (other x t) = some t

abbrev pub is_element : Node → Bool
is_element (element x ns op f) = true
is_element (text t) = false
is_element (other x t) = false

abbrev pub is_text : Node → Bool
is_text (element x ns op f) = false
is_text (text t) = true
is_text (other x t) = false

-- `xmlStrEqual(node->name, BAD_CAST x)`
abbrev pub named : Node → String → Bool
named n x = str_eq (name n) x

-- `node->children`
abbrev pub first_of_list : List Node → Option Node
first_of_list [] = none
first_of_list (n ∷ r) = some n

abbrev pub first_child : Node → Option Node
first_child n = first_of_list (children n)

-- `node->children ? node->children->content : NULL`
abbrev pub content_of : Option Node → Option Text
content_of none = none
content_of (some c) = content c

abbrev pub child_content : Node → Option Text
child_content n = content_of (first_child n)

pub record Loc : Type 0 where
  pub node : Node
  pub parents : List Node

-- The children of a document.
abbrev pub Doc : Type 0
Doc = List Node

-- server/edit-config.c: the first child element of that name
unfoldable pub go2node : Option Node → String → Option Node
go2node none x = none
go2node (some parent) x = find? (λ child. is_element child && named child x) (children parent)

-- The height of a subtree.
abbrev mutual
  pub depth : Node → ℕ
  depth (element x ns op f) = suc (depth_forest f)
  depth (text t) = 0
  depth (other x t) = 0

  pub depth_forest : Forest → ℕ
  depth_forest nil = 0
  depth_forest (cons n f) = max (suc (depth n)) (depth_forest f)
