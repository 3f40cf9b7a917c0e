-- ===== src/Edit/Compact/Total.antt =====
-- When `compact_edit_operations` of server/edit-config.c returns, and what it leaves.
use of_config.Base.{
  Text, codes, false, Option, none, some, [], ◌∷◌, All, ◌≡◌, ◌≢◌, ◌⊎◌, inl, inr, refl, arith, ap,
  ◌∙◌, if◌then◌else◌,
}
use of_config.Error.{Result, ok, fail, fault, NcErr, Result-cases}
use of_config.Xml.{Node, Forest, element, text, other, nil, cons, Doc, is_element}
use of_config.Edit.Operation.{DefOp, EditOp, code, get_operation, operation_or, read_operation}
use of_config.Edit.Operation.Hierarchy.{
  read_operation-ne-notset, read_operation-code, code-read_operation,
}
use of_config.Edit.Compact.{
  inherited, repeats, without_operation, compact_edit_operations_r, compact_children,
  compact_edit_operations,
}

-- The attribute is absent or holds the name of an operation.
abbrev pub IsKnown : Option Text → Type 0
IsKnown none = Unit
IsKnown (some t) = (op : EditOp) × (op ≢ EditOp.notset) × (t ≡ codes (code op))

abbrev mutual
  pub KnownOperations : Node → Type 0
  KnownOperations (element x ns attr f) = IsKnown attr × KnownChildren f
  KnownOperations (text t) = Unit
  KnownOperations (other x t) = Unit

  pub KnownChildren : Forest → Type 0
  KnownChildren nil = Unit
  KnownChildren (cons n f) = KnownOperations n × KnownChildren f

-- A run that ends well exactly when `P` holds, and otherwise follows a NULL pointer.
abbrev pub Decided : Type 0 → {A : Type 0} → Result A → Type 0
Decided P {A} r = (P × (a : A) × (r ≡ ok a)) ⊎ ((¬ P) × (r ≡ fault))

read_operation-ne-fail : (t : Text) (e : Option NcErr) → read_operation t false ≢ fail e
unfolding read_operation
read_operation-ne-fail t e h = ground arith

read_operation-Decided : (t : Text) → Decided (IsKnown (some t)) (read_operation t false)
read_operation-Decided t = elim (Result-cases (read_operation t false)) [
  | inl (op, e) ↦ inl (
    (op, (λ p. read_operation-ne-notset t false (e ∙ ap ok p)), read_operation-code t false op e),
    op,
    e,
  )
  | inr (inl (x, e)) ↦ absurd (read_operation-ne-fail t x e)
  | inr (inr e) ↦
      inr ((λ (op, h, p). let found = code-read_operation op false h in cc (found, p, e)), e)
]

module _ (as_op : DefOp → EditOp) where
  operation_or-Decided :
      (attr : Option Text) → Decided (IsKnown attr) (operation_or as_op attr DefOp.notset false)
  operation_or-Decided none = inl (tt, as_op DefOp.notset, refl)
  operation_or-Decided (some t) = read_operation-Decided t

  mutual
    unfolding compact_edit_operations_r get_operation

    compact-Decided :
        (n : Node) (up : EditOp)
        → Decided (KnownOperations n) (compact_edit_operations_r as_op n up)
    compact-Decided (element x ns attr f) up = elim (operation_or-Decided attr) [
      | inl (k, op, e) ↦ elim (children-Decided f (inherited op up)) [
        | inl (ks, f', es) ↦
            inl ((k, ks), element x ns (without_operation (repeats op up) attr) f', cc (e, es))
        | inr (no_children, es) ↦ inr ((λ h. no_children h.1), cc (e, es))
      ]
      | inr (no_op, e) ↦ inr ((λ h. no_op h.0), cc e)
    ]
    compact-Decided (text t) up = inl (tt, text t, refl)
    compact-Decided (other x t) up = inl (tt, other x t, refl)

    children-Decided :
        (f : Forest) (up : EditOp) → Decided (KnownChildren f) (compact_children as_op f up)
    children-Decided nil up = inl (tt, nil, refl)
    children-Decided (cons n f) up = elim (compact-Decided n up) [
      | inl (k, n', e) ↦ elim (children-Decided f up) [
        | inl (ks, f', es) ↦ inl ((k, ks), cons n' f', cc (e, es))
        | inr (no_rest, es) ↦ inr ((λ h. no_rest h.1), cc (e, es))
      ]
      | inr (no_node, e) ↦ inr ((λ h. no_node h.0), cc e)
    ]

  root-Decided :
      (n : Node) (up : EditOp)
      → Decided
          (KnownOperations n)
          (if is_element n then compact_edit_operations_r as_op n up else ok n)
  root-Decided (element x ns attr f) up = compact-Decided (element x ns attr f) up
  root-Decided (text t) up = inl (tt, text t, refl)
  root-Decided (other x t) up = inl (tt, other x t, refl)

  -- Compacting returns a document exactly when each `operation` attribute of the edit holds the name
  -- of an operation. Otherwise `get_operation` writes its error through the NULL pointer that
  -- `compact_edit_operations_r` passes, and the run is undefined; no error is ever reported.
  pub compact_edit_operations-Decided :
      (d : Doc) (defop : DefOp)
      → Decided (All KnownOperations d) (compact_edit_operations as_op d defop)
  unfolding compact_edit_operations
  compact_edit_operations-Decided [] defop = inl (tt, [], refl)
  compact_edit_operations-Decided (n ∷ d) defop = elim (root-Decided n (as_op defop)) [
    | inl (k, n', e) ↦ elim (compact_edit_operations-Decided d defop) [
      | inl (ks, d', es) ↦ inl ((k, ks), n' ∷ d', cc (e, es))
      | inr (no_rest, es) ↦ inr ((λ h. no_rest h.1), cc (e, es))
    ]
    | inr (no_node, e) ↦ inr ((λ h. no_node h.0), cc e)
  ]
