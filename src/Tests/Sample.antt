-- ===== src/Tests/Sample.antt =====
-- Documents, rows and parameters for the tests.
use of_config.Base.{String, codes, none, some, List, [], ◌∷◌}
use of_config.Xml.{Node, Forest, nil, cons, element, text, Doc, Loc}
use of_config.Edit.Operation.{DefOp, EditOp, create, no_op}

abbrev pub forest : List Node → Forest
forest [] = nil
forest (n ∷ l) = cons n (forest l)

abbrev pub el : String → List Node → Node
el x l = element x none none (forest l)

abbrev pub leaf : String → String → Node
leaf x t = el x (text (codes t) ∷ [])

abbrev pub op_el : String → String → List Node → Node
op_el x op l = element x none (some (codes op)) (forest l)

-- Casts by the order of the constants.
abbrev pub as_op : DefOp → EditOp
as_op DefOp.notset = EditOp.notset
as_op DefOp.merge = EditOp.merge
as_op DefOp.replace = EditOp.replace
as_op no_op = create

abbrev pub port1 : Node
port1 = el "port" (leaf "name" "p1" ∷ [])

abbrev pub port2 : Node
port2 = el "port" (leaf "name" "p2" ∷ leaf "requested-number" "7" ∷ [])

abbrev pub resources : Node
resources = el "resources" (port1 ∷ port2 ∷ [])

abbrev pub capable_switch : Node
capable_switch = el "capable-switch" (resources ∷ [])

abbrev pub edit_port : Node
edit_port = op_el "port" "delete" (leaf "name" "p2" ∷ [])

abbrev pub edit_resources : Node
edit_resources = el "resources" (edit_port ∷ [])

abbrev pub edit_loc : Loc
edit_loc = record {
  node = edit_port;
  parents = edit_resources ∷ el "capable-switch" (edit_resources ∷ []) ∷ [];
}

abbrev pub port2_loc : Loc
port2_loc = record { node = port2; parents = resources ∷ capable_switch ∷ [] }

-- An edit in which an operation is stated twice, and the same with the second one gone.
abbrev pub twice : Doc
twice = op_el "resources" "delete" (op_el "port" "delete" (leaf "name" "p1" ∷ []) ∷ []) ∷ []

abbrev pub once : Doc
once = op_el "resources" "delete" (el "port" (leaf "name" "p1" ∷ []) ∷ []) ∷ []

abbrev pub nameless : Node
nameless = el "switch" (el "id" [] ∷ [])

abbrev pub switch_id : Node
switch_id = leaf "id" "br0"
