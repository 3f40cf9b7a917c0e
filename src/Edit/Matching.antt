-- ===== src/Edit/Matching.antt =====
-- `is_key`, `nscmp`, `matching_elements` and `find_element_equiv` of server/edit-config.c.
pub mod Fuel
pub mod Find
pub mod EmptyKey
use mathlib.Core.Option
use of_config.Base.{
  ℕ, zero, suc, String, Text, codes, Bool, true, false, not, ◌&&◌, ◌||◌, Option, none, some, List,
  [], ◌∷◌, text_eq, str_eq, if◌then◌else◌,
}
use of_config.Xml.{
  Node, Loc, Doc, name, named, ns_href, children, content, is_element, is_text, first_child,
  go2node, depth,
}
use of_config.Edit.Whitespace.{clrwspace}

abbrev pub nc_ns_base10 : Text
nc_ns_base10 = codes "urn:ietf:params:xml:ns:netconf:base:1.0"

abbrev pub is_empty : Text → Bool
is_empty [] = true
is_empty (c ∷ s) = false

-- `nscmp(reference, node) == 0`, on the namespaces' hrefs
unfoldable pub nscmp : Option Text → Option Text → Bool
nscmp none other = true
nscmp (some href) none = text_eq href nc_ns_base10 || is_empty (clrwspace href)
nscmp (some href) (some other) =
    text_eq href nc_ns_base10 || is_empty (clrwspace href) || text_eq href other

-- `node->parent->name`; a document has no name.
abbrev pub parent_named : List Node → String → Bool
parent_named [] x = false
parent_named (p ∷ up) x = named p x

unfoldable pub is_key : Loc → Bool
is_key l =
    if named l.node "id"
    then parent_named l.parents "switch" || parent_named l.parents "controller"
    else if named l.node "table-id"
    then true
    else if named l.node "name" && not (parent_named l.parents "flow-table")
    then true
    else named l.node "resource-id" && not (parent_named l.parents "flow-table")

-- The result 0, 1 or -1 of `matching_elements`; `crash` where a NULL pointer is followed, and
-- `no_fuel` where the recursion is cut short.
pub data Match : Type 0 where
  differ same invalid crash no_fuel : Match

abbrev pub as_match : Bool → Match
as_match true = same
as_match false = differ

-- The text nodes are compared without their whitespace.
abbrev pub match_text : Option Text → Option Text → Match
match_text (some s) (some t) = as_match (text_eq (clrwspace s) (clrwspace t))
match_text _ _ = differ

-- The elements whose text child, if both have one, decides.
abbrev pub compares_text : Loc → Bool
compares_text l =
    named l.node "queue"
    || named l.node "flow-table"
    || named l.node "rate"
    || named l.node "medium"
    || (named l.node "port" && parent_named l.parents "resources")

abbrev pub starts_with_text : Option Node → Bool
starts_with_text none = false
starts_with_text (some n) = is_text n

-- `node->parent->parent->name` is "capable-switch"; the parent of a document is NULL.
pub data Above : Type 0 where
  yes_above no_above no_parent : Above

abbrev pub above_named : List Node → String → Above
above_named [] x = no_parent
above_named (p ∷ []) x = no_above
above_named (p ∷ q ∷ up) x = if named q x then yes_above else no_above

-- The name of the key by which a list's entries are compared.
pub data KeyName : Type 0 where
  key : String → KeyName
  no_key crashed : KeyName

abbrev pub key_if_above : Above → String → KeyName
key_if_above yes_above k = key k
key_if_above no_above k = no_key
key_if_above no_parent k = crashed

unfoldable pub list_key : Loc → KeyName
list_key l =
    if named l.node "controller" || named l.node "switch"
    then key "id"
    else if named l.node "port"
    then key_if_above (above_named l.parents "capable-switch") "name"
    else if named l.node "flow-table"
    then key_if_above (above_named l.parents "capable-switch") "table-id"
    else if named l.node "queue"
        || named l.node "owned-certificate"
        || named l.node "external-certificate"
    then key_if_above (above_named l.parents "capable-switch") "resource-id"
    else no_key

-- A child and its place in the document.
abbrev pub child_loc : Loc → Node → Loc
child_loc l n = record { node = n; parents = l.node ∷ l.parents }

abbrev pub first_child_loc : Loc → Option Loc
first_child_loc l = Option.map (child_loc l) (first_child l.node)

module _ (again : Option Node → Option Loc → Match) where
  -- The first children of both keys are compared, where both keys are there.
  abbrev pub match_keys : Option Node → Option Loc → Match
  match_keys none k2 = differ
  match_keys (some k1) none = differ
  match_keys (some k1) (some k2) = again (first_child k1) (first_child_loc k2)

  abbrev pub match_by : KeyName → Node → Loc → Match
  match_by no_key n1 l2 = same
  match_by crashed n1 l2 = crash
  match_by (key k) n1 l2 =
      match_keys (go2node (some n1) k) (Option.map (child_loc l2) (go2node (some l2.node) k))

  unfoldable pub match_nodes : Node → Loc → Match
  match_nodes n1 l2 =
      let n2 = l2.node in
      if is_text n1 && is_text n2
      then match_text (content n1) (content n2)
      else if not (is_element n1) || not (is_element n2)
      then differ
      else if not (str_eq (name n1) (name n2))
      then differ
      else if not (nscmp (ns_href n1) (ns_href n2))
      then differ
      else if compares_text l2
          && starts_with_text (first_child n1)
          && starts_with_text (first_child n2)
      then again (first_child n1) (first_child_loc l2)
      else match_by (list_key l2) n1 l2

unfoldable pub match_deep : ℕ → Option Node → Option Loc → Match
match_deep zero n1 l2 = no_fuel
match_deep (suc fuel) none l2 = invalid
match_deep (suc fuel) (some n1) none = invalid
match_deep (suc fuel) (some n1) (some l2) = match_nodes (match_deep fuel) n1 l2

-- Each call goes at least one level down in the second tree.
unfoldable pub matching_elements : Node → Loc → Match
matching_elements n1 l2 = match_deep (suc (suc (depth l2.node))) (some n1) (some l2)

pub data Found : Type 0 where
  absent crashed : Found
  found : Loc → Found

abbrev pub found_if : Match → Loc → Found → Found
found_if differ l rest = rest
found_if same l rest = found l
found_if invalid l rest = found l
found_if crash l rest = Found.crashed
found_if no_fuel l rest = Found.crashed

-- the `while` loop over the siblings: -1 counts as a match
unfoldable pub first_match : Node → List Node → List Node → Found
first_match edit up [] = absent
first_match edit up (n ∷ rest) =
    let l : Loc = record { node = n; parents = up } in
    found_if (matching_elements edit l) l (first_match edit up rest)

-- The document's top level, or the children of the equivalent that was found.
abbrev pub below : Node → Found → Found
below edit absent = absent
below edit Found.crashed = Found.crashed
below edit (found l) = first_match edit (l.node ∷ l.parents) (children l.node)

unfoldable pub find_in : Doc → Node → List Node → Found
find_in doc edit [] = first_match edit [] doc
find_in doc edit (p ∷ up) = below edit (find_in doc p up)

unfoldable pub find_element_equiv : Option Doc → Loc → Found
find_element_equiv none edit = absent
find_element_equiv (some doc) edit = find_in doc edit.node edit.parents
