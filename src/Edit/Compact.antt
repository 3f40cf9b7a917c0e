-- ===== src/Edit/Compact.antt =====
-- `compact_edit_operations` of server/edit-config.c: an operation that an element inherits anyway is
-- taken off it. Namespace definitions, which `clrns` tidies up, are not part of the documents here.
pub mod Effective
pub mod Total
pub mod Minimal
use of_config.Base.{Text, Bool, false, Option, none, [], ◌∷◌, if◌then◌else◌}
use of_config.Error.{◌>>=◌, ◌>>◌, Result, ok}
use of_config.Xml.{Node, Forest, element, text, other, nil, cons, Doc, is_element}
use of_config.Edit.Operation.{DefOp, EditOp, op_eq, get_operation}

-- the `switch`: the operation that the children inherit
abbrev pub inherited : EditOp → EditOp → EditOp
inherited EditOp.notset supreme_op = supreme_op
inherited op supreme_op = op

-- whether the attribute repeats the inherited operation
abbrev pub repeats : EditOp → EditOp → Bool
repeats EditOp.notset supreme_op = false
repeats op supreme_op = op_eq op supreme_op

abbrev pub without_operation : Bool → Option Text → Option Text
without_operation drop op = if drop then none else op

module _ (as_op : DefOp → EditOp) where
  unfoldable mutual
    pub compact_edit_operations_r : Node → EditOp → Result Node
    compact_edit_operations_r (element x ns attr f) supreme_op = do
      op ← get_operation as_op (element x ns attr f) DefOp.notset false
      f' ← compact_children f (inherited op supreme_op)
      ok (element x ns (without_operation (repeats op supreme_op) attr) f')
    compact_edit_operations_r (text t) supreme_op = do
      op ← get_operation as_op (text t) DefOp.notset false
      ok (text t)
    compact_edit_operations_r (other x t) supreme_op = do
      op ← get_operation as_op (other x t) DefOp.notset false
      ok (other x t)

    pub compact_children : Forest → EditOp → Result Forest
    compact_children nil supreme_op = ok nil
    compact_children (cons n f) supreme_op = do
      n' ← compact_edit_operations_r n supreme_op
      f' ← compact_children f supreme_op
      ok (cons n' f')

  unfoldable pub compact_edit_operations : Doc → DefOp → Result Doc
  compact_edit_operations [] defop = ok []
  compact_edit_operations (root ∷ rest) defop = do
    root' ← (if is_element root then compact_edit_operations_r root (as_op defop) else ok root)
    rest' ← compact_edit_operations rest defop
    ok (root' ∷ rest')
