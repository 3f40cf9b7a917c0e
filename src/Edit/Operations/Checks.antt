-- ===== src/Edit/Operations/Checks.antt =====
-- `get_defval` and `check_edit_ops` of server/edit-config.c: the checks of `delete` and `create` that are
-- made before anything is edited.
use of_config.Base.{String, ◌||◌, ◌&&◌, Option, none, some, List, [], ◌∷◌, ◌≡◌, ◌≢◌, if◌then◌else◌}
use of_config.Error.{Result, ok, fail, fault, ◌>>◌, NcErr, nc_err_new, data_missing, data_exists}
use of_config.Xml.{named, Loc, Doc}
use of_config.Edit.Operation.{DefOp, EditOp, create, delete, check_edit_ops_hierarchy}
use of_config.Edit.Operation.Hierarchy.{Compatible}
use of_config.Edit.Matching.{parent_named, Found, absent, crashed, found, find_element_equiv}
use of_config.Edit.Zipper.{Zipper, loc}
use of_config.Edit.Operations.{Position, place_at, get_operation_elements}

-- The value that the schema gives a node, by the node's name.
unfoldable pub get_defval : Loc → Option String
get_defval l =
    let n = l.node in
    if named n "lost-connection-behavior"
    then some "failSecureMode"
    else if named n "port" && parent_named l.parents "controller"
    then some "6633"
    else if named n "protocol"
    then some "tls"
    else if named n "checksum-present" || named n "key-present" || named n "auto-negotiate"
    then some "true"
    else if named n "no-receive" || named n "no-forward" || named n "no-packet-in"
    then some "false"
    else if named n "admin-state"
    then some "up"
    else none

-- The modes of libnetconf's with-defaults capability that are told apart.
pub data BasicMode : Type 0 where
  mode_all mode_trim mode_other : BasicMode

-- A default value is a string literal, which `xmlFree` gets at the end of each way that has one.
abbrev pub free_defval : Option String → NcErr → Result (Unit {0})
free_defval none e = fail (some e)
free_defval (some v) e = fault

abbrev pub check_delete : BasicMode → Option String → Found → Result (Unit {0})
check_delete mode defval (found n) = ok tt
check_delete mode defval crashed = fault
check_delete mode_all defval absent = free_defval defval (nc_err_new data_missing)
check_delete mode_trim defval absent = fail (some (nc_err_new data_missing))
check_delete mode_other defval absent = fail (some (nc_err_new data_missing))

abbrev pub check_create : BasicMode → Option String → Found → Result (Unit {0})
check_create mode defval absent = ok tt
check_create mode defval crashed = fault
check_create mode_all defval (found n) = fail (some (nc_err_new data_exists))
check_create mode_trim defval (found n) = free_defval defval (nc_err_new data_exists)
check_create mode_other defval (found n) = fail (some (nc_err_new data_exists))

abbrev pub check_found : EditOp → BasicMode → Option String → Found → Result (Unit {0})
check_found delete mode defval n = check_delete mode defval n
check_found create mode defval n = check_create mode defval n
check_found _ mode defval crashed = fault
check_found _ mode defval absent = ok tt
check_found _ mode defval (found n) = ok tt

module _ (as_op : DefOp → EditOp) (mode : BasicMode) where
  abbrev pub check_one : EditOp → DefOp → Option Doc → Loc → Result (Unit {0})
  check_one op defop orig l =
      check_edit_ops_hierarchy as_op l defop
      >> check_found op mode (get_defval l) (find_element_equiv orig l)

  abbrev pub check_place : EditOp → DefOp → Option Doc → Option Zipper → Result (Unit {0})
  check_place op defop orig none = fault
  check_place op defop orig (some z) = check_one op defop orig (loc z)

  unfoldable pub check_all : EditOp → DefOp → Option Doc → Doc → List Position → Result (Unit {0})
  check_all op defop orig edit [] = ok tt
  check_all op defop orig edit (p ∷ ps) =
      check_place op defop orig (place_at [] edit p) >> check_all op defop orig edit ps

  unfoldable pub check_edit_ops : EditOp → DefOp → Option Doc → Doc → Result (Unit {0})
  check_edit_ops op defop orig edit = check_all op defop orig edit (get_operation_elements op edit)

-- What the configuration must hold for the operation.
abbrev pub Fits : EditOp → Found → Type 0
Fits delete n = (l : Loc) × (n ≡ found l)
Fits create n = n ≡ absent
Fits _ n = n ≢ crashed

-- The element in this place passes.
abbrev pub Passes : EditOp → DefOp → Option Doc → Zipper → Type 0
Passes op defop orig z = Compatible (loc z) defop × Fits op (find_element_equiv orig (loc z))

-- A position where there is no node does not pass.
abbrev PassesAt : EditOp → DefOp → Option Doc → Option Zipper → Type 0
PassesAt op defop orig none = ⊥
PassesAt op defop orig (some z) = Passes op defop orig z
