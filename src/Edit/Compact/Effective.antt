-- ===== src/Edit/Compact/Effective.antt =====
-- Compacting keeps the operation that applies to each element.
use of_config.Base.{
  Text, true, false, Option, none, some, List, [], ◌∷◌, ◌++◌, ◌≡◌, arith, ap, if◌then◌else◌,
}
use of_config.Error.{Result, ok, fail, fault, ok_of_bind, ok-injective}
use of_config.Xml.{Node, Forest, element, text, other, nil, cons, Doc, is_element}
use of_config.Edit.Operation.{DefOp, EditOp, op_eq, get_operation, operation_or}
use of_config.Edit.Operation.Hierarchy.{read_operation-ne-notset}
use of_config.Edit.Compact.{
  inherited, repeats, without_operation, compact_edit_operations_r, compact_children,
  compact_edit_operations,
}

-- What an attribute adds to the inherited operation; one that is no operation adds nothing.
abbrev pub adopt : Result EditOp → EditOp → EditOp
adopt (ok EditOp.notset) up = up
adopt (ok op) up = op
adopt (fail e) up = up
adopt fault up = up

op_eq_sound : (a b : EditOp) → op_eq a b ≡ true → a ≡ b
op_eq_sound a b h = ground arith

module _ (as_op : DefOp → EditOp) where
  abbrev pub adopted : Option Text → EditOp → EditOp
  adopted attr up = adopt (operation_or as_op attr DefOp.notset false) up

  -- The operations that apply to the elements of a subtree, in document order.
  abbrev mutual
    pub effective_ops : Node → EditOp → List EditOp
    effective_ops (element x ns attr f) up =
        adopted attr up ∷ effective_children f (adopted attr up)
    effective_ops (text t) up = []
    effective_ops (other x t) up = []

    pub effective_children : Forest → EditOp → List EditOp
    effective_children nil up = []
    effective_children (cons n f) up = effective_ops n up ++ effective_children f up

  abbrev pub effective_doc : Doc → EditOp → List EditOp
  effective_doc [] up = []
  effective_doc (n ∷ d) up = effective_ops n up ++ effective_doc d up

  module _ (zero_op : as_op DefOp.notset ≡ EditOp.notset) where
    pub adopted-compact :
        (attr : Option Text) (up op : EditOp)
        → operation_or as_op attr DefOp.notset false ≡ ok op
        → adopted (without_operation (repeats op up) attr) up ≡ inherited op up
    adopted-compact none up op h = ground (arith, zero_op)
    adopted-compact (some t) up EditOp.notset h = absurd (read_operation-ne-notset t false h)
    adopted-compact (some t) up EditOp.merge h =
        ground (arith, zero_op, op_eq_sound EditOp.merge up)
    adopted-compact (some t) up EditOp.replace h =
        ground (arith, zero_op, op_eq_sound EditOp.replace up)
    adopted-compact (some t) up op h = ground (arith, zero_op, op_eq_sound op up)

    mutual
      unfolding compact_edit_operations_r get_operation

      effective_ops-compact :
          (n : Node) (up : EditOp) (n' : Node)
          → compact_edit_operations_r as_op n up ≡ ok n'
          → effective_ops n' up ≡ effective_ops n up
      effective_ops-compact (element x ns attr f) up n' h =
          let (op, read, h1) = ok_of_bind (operation_or as_op attr DefOp.notset false) _ h in
          let (f', done, h2) = ok_of_bind (compact_children as_op f (inherited op up)) _ h1 in
          let kept = adopted-compact attr up op read in
          let same : adopted attr up ≡ inherited op up = ap (λ r. adopt r up) read in
          rw (← ok-injective h2)
            (cc (kept, same, effective_children-compact f (inherited op up) f' done))
      effective_ops-compact (text t) up n' h = rw (← ok-injective h)
      effective_ops-compact (other x t) up n' h = rw (← ok-injective h)

      effective_children-compact :
          (f : Forest) (up : EditOp) (f' : Forest)
          → compact_children as_op f up ≡ ok f'
          → effective_children f' up ≡ effective_children f up
      effective_children-compact nil up f' h = rw (← ok-injective h)
      effective_children-compact (cons n f) up f' h =
          let (n1, here, h1) = ok_of_bind (compact_edit_operations_r as_op n up) _ h in
          let (f1, later, h2) = ok_of_bind (compact_children as_op f up) _ h1 in
          rw (← ok-injective h2)
            (cc (effective_ops-compact n up n1 here, effective_children-compact f up f1 later))

    root-compact :
        (n : Node) (up : EditOp) (n' : Node)
        → (if is_element n then compact_edit_operations_r as_op n up else ok n) ≡ ok n'
        → effective_ops n' up ≡ effective_ops n up
    root-compact (element x ns attr f) up n' h = effective_ops-compact (element x ns attr f) up n' h
    root-compact n up n' h = rw (← ok-injective h)

    -- Where libnetconf's NOTSET values are one and the document compacts, each element is left with
    -- the operation that applied to it before: its own, or the nearest stated one above it, or the
    -- default.
    pub effective_doc-compact :
        (d : Doc) (defop : DefOp) (d' : Doc)
        → compact_edit_operations as_op d defop ≡ ok d'
        → effective_doc d' (as_op defop) ≡ effective_doc d (as_op defop)
    unfolding compact_edit_operations
    effective_doc-compact [] defop d' h = rw (← ok-injective h)
    effective_doc-compact (n ∷ d) defop d' h =
        let (n1, here, h1) =
          ok_of_bind
            (if is_element n then compact_edit_operations_r as_op n (as_op defop) else ok n) _ h in
        let (d1, later, h2) = ok_of_bind (compact_edit_operations as_op d defop) _ h1 in
        rw (← ok-injective h2)
          (cc (root-compact n (as_op defop) n1 here, effective_doc-compact d defop d1 later))
