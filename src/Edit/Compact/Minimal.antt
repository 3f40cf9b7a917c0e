-- ===== src/Edit/Compact/Minimal.antt =====
-- Compacting leaves no operation that is inherited anyway.
use of_config.Base.{
  Text, codes, true, false, Option, none, some, [], ◌∷◌, All, ◌≡◌, ◌≢◌, inl, inr, refl, ap, sym,
  ◌∙◌, if◌then◌else◌, Bool-cases,
}
use of_config.Error.{ok, ok_of_bind, ok-injective}
use of_config.Xml.{Node, Forest, element, text, other, nil, cons, Doc, is_element}
use of_config.Edit.Operation.{DefOp, EditOp, code, get_operation, operation_or}
use of_config.Edit.Operation.Hierarchy.{code-read_operation}
use of_config.Edit.Compact.{
  inherited, repeats, without_operation, compact_edit_operations_r, compact_children,
  compact_edit_operations,
}
use of_config.Edit.Compact.Effective.{adopted, adopted-compact}

-- The attribute does not name the operation that holds above it.
abbrev pub IsNews : Option Text → EditOp → Type 0
IsNews attr up = (op : EditOp) → op ≢ EditOp.notset → attr ≡ some (codes (code op)) → op ≢ up

module _ (as_op : DefOp → EditOp) where
  abbrev mutual
    pub IsMinimal : Node → EditOp → Type 0
    IsMinimal (element x ns attr f) up = IsNews attr up × MinimalChildren f (adopted as_op attr up)
    IsMinimal (text t) up = Unit
    IsMinimal (other x t) up = Unit

    pub MinimalChildren : Forest → EditOp → Type 0
    MinimalChildren nil up = Unit
    MinimalChildren (cons n f) up = IsMinimal n up × MinimalChildren f up

  module _ (zero_op : as_op DefOp.notset ≡ EditOp.notset) where
    repeats_self : (op : EditOp) → op ≢ EditOp.notset → repeats op op ≡ true
    repeats_self EditOp.notset h = absurd (h refl)
    repeats_self EditOp.merge h = refl
    repeats_self _ h = refl

    IsNews-compact :
        (attr : Option Text) (up op : EditOp)
        → operation_or as_op attr DefOp.notset false ≡ ok op
        → IsNews (without_operation (repeats op up) attr) up
    IsNews-compact attr up op read op' h e same = elim (Bool-cases (repeats op up)) [
      | inl dropped ↦
          let gone : none ≡ some (codes (code op')) = rw (dropped, without_operation) at e in
          cc gone
      | inr kept ↦
          let stays : attr ≡ some (codes (code op')) = rw (kept, without_operation) at e in
          let reads_op : ok op' ≡ ok op =
            sym (code-read_operation op' false h)
            ∙ ap (λ a. operation_or as_op a DefOp.notset false) (sym stays)
            ∙ read in
          let again = repeats_self op' h in cc (kept, again, ok-injective reads_op, same)
    ]

    mutual
      unfolding compact_edit_operations_r get_operation

      IsMinimal-compact :
          (n : Node) (up : EditOp) (n' : Node)
          → compact_edit_operations_r as_op n up ≡ ok n'
          → IsMinimal n' up
      IsMinimal-compact (element x ns attr f) up n' h =
          let (op, read, h1) = ok_of_bind (operation_or as_op attr DefOp.notset false) _ h in
          let (f', done, h2) = ok_of_bind (compact_children as_op f (inherited op up)) _ h1 in
          let kept = adopted-compact as_op zero_op attr up op read in
          rw (← ok-injective h2) (
            IsNews-compact attr up op read,
            rw kept (MinimalChildren-compact f (inherited op up) f' done),
          )
      IsMinimal-compact (text t) up n' h = rw (← ok-injective h) tt
      IsMinimal-compact (other x t) up n' h = rw (← ok-injective h) tt

      MinimalChildren-compact :
          (f : Forest) (up : EditOp) (f' : Forest)
          → compact_children as_op f up ≡ ok f'
          → MinimalChildren f' up
      MinimalChildren-compact nil up f' h = rw (← ok-injective h) tt
      MinimalChildren-compact (cons n f) up f' h =
          let (n1, here, h1) = ok_of_bind (compact_edit_operations_r as_op n up) _ h in
          let (f1, later, h2) = ok_of_bind (compact_children as_op f up) _ h1 in
          rw (← ok-injective h2)
            (IsMinimal-compact n up n1 here, MinimalChildren-compact f up f1 later)

    root-IsMinimal :
        (n : Node) (up : EditOp) (n' : Node)
        → (if is_element n then compact_edit_operations_r as_op n up else ok n) ≡ ok n'
        → IsMinimal n' up
    root-IsMinimal (element x ns attr f) up n' h = IsMinimal-compact (element x ns attr f) up n' h
    root-IsMinimal (text t) up n' h = rw (← ok-injective h) tt
    root-IsMinimal (other x t) up n' h = rw (← ok-injective h) tt

    -- Where libnetconf's NOTSET values are one and the document compacts, no element is left that
    -- states the operation which applies above it, or the default at the root.
    pub compact_edit_operations-IsMinimal :
        (d : Doc) (defop : DefOp) (d' : Doc)
        → compact_edit_operations as_op d defop ≡ ok d'
        → All (λ n. IsMinimal n (as_op defop)) d'
    unfolding compact_edit_operations
    compact_edit_operations-IsMinimal [] defop d' h = rw (← ok-injective h) tt
    compact_edit_operations-IsMinimal (n ∷ d) defop d' h =
        let (n1, here, h1) =
          ok_of_bind
            (if is_element n then compact_edit_operations_r as_op n (as_op defop) else ok n) _ h in
        let (d1, later, h2) = ok_of_bind (compact_edit_operations as_op d defop) _ h1 in
        rw (← ok-injective h2) (
          root-IsMinimal n (as_op defop) n1 here,
          compact_edit_operations-IsMinimal d defop d1 later,
        )
