-- ===== src/Edit/Operation.antt =====
-- Edit operations of server/edit-config.c: the `operation` attribute and the rules about the
-- operations of an element's ancestors.
pub mod Hierarchy
use of_config.Base.{
  String, Text, codes, Bool, true, false, ◌&&◌, Option, none, some, List, [], ◌∷◌, text_eq,
  if◌then◌else◌,
}
use of_config.Error.{◌>>=◌, ◌>>◌, Result, ok, fail, fault, NcErr, nc_err_new, op_failed, bad_attr}
use of_config.Xml.{Node, Loc, operation}

-- NC_EDIT_DEFOP_TYPE and NC_EDIT_OP_TYPE of libnetconf
pub data DefOp : Type 0 where
  notset merge replace no_op : DefOp

pub data EditOp : Type 0 where
  notset merge replace create delete remove : EditOp

abbrev pub code : EditOp → String
code EditOp.notset = ""
code EditOp.merge = "merge"
code EditOp.replace = "replace"
code create = "create"
code delete = "delete"
code remove = "remove"

abbrev pub op_eq : EditOp → EditOp → Bool
op_eq EditOp.notset EditOp.notset = true
op_eq EditOp.merge EditOp.merge = true
op_eq EditOp.replace EditOp.replace = true
op_eq create create = true
op_eq delete delete = true
op_eq remove remove = true
op_eq _ _ = false

abbrev pub bad_operation : NcErr
bad_operation = record (nc_err_new bad_attr) { info_badattr = some "operation" }

-- The part of `get_operation` that reads a present attribute; `has_error` tells whether the caller
-- passed a place for the error, which is written without a check.
unfoldable pub read_operation : Text → Bool → Result EditOp
read_operation t has_error =
    if text_eq t (codes "merge")
    then ok EditOp.merge
    else if text_eq t (codes "replace")
    then ok EditOp.replace
    else if text_eq t (codes "create")
    then ok create
    else if text_eq t (codes "delete")
    then ok delete
    else if text_eq t (codes "remove")
    then ok remove
    else if has_error
    then fail (some bad_operation)
    else fault

abbrev pub is_removal : EditOp → Bool
is_removal delete = true
is_removal remove = true
is_removal _ = false

abbrev pub is_creation : EditOp → Bool
is_creation create = true
is_creation EditOp.replace = true
is_creation _ = false

abbrev pub is_replace : DefOp → Bool
is_replace DefOp.replace = true
is_replace _ = false

-- `as_op` is the cast `(NC_EDIT_OP_TYPE) defop` between libnetconf's enumerations.
module _ (as_op : DefOp → EditOp) where
  abbrev pub operation_or : Option Text → DefOp → Bool → Result EditOp
  operation_or none defop has_error = ok (as_op defop)
  operation_or (some t) defop has_error = read_operation t has_error

  unfoldable pub get_operation : Node → DefOp → Bool → Result EditOp
  get_operation node defop has_error = operation_or (operation node) defop has_error

  -- the `while` loops over the parents, up to the document
  unfoldable pub check_parents : (EditOp → Bool) → List Node → Result (Unit {0})
  check_parents clashes [] = ok tt
  check_parents clashes (parent ∷ up) = do
    parent_op ← get_operation parent DefOp.notset true
    if clashes parent_op then fail (some (nc_err_new op_failed)) else check_parents clashes up

  unfoldable pub check_edit_ops_hierarchy : Loc → DefOp → Result (Unit {0})
  check_edit_ops_hierarchy edit defop = do
    op ← get_operation edit.node DefOp.notset true
    if op_eq op (as_op DefOp.notset)
        then ok tt
        else if is_removal op && is_replace defop
        then fail (some (nc_err_new op_failed))
        else if is_removal op
        then check_parents is_creation edit.parents
        else if is_creation op
        then check_parents is_removal edit.parents
        else ok tt
