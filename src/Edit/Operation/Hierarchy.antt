-- ===== src/Edit/Operation/Hierarchy.antt =====
-- When `check_edit_ops_hierarchy` of server/edit-config.c accepts an element.
use of_config.Base.{
  Text, codes, Bool, true, false, Option, none, some, List, [], ◌∷◌, All, All-map, text_eq, ◌≡◌,
  ◌≢◌, ◌↔◌, ◌⊎◌, inl, inr, refl, ap, arith, text_eq_iff,
}
use of_config.Error.{ok}
use of_config.Xml.{Node, Loc, operation}
use of_config.Edit.Operation.{
  DefOp, EditOp, create, delete, remove, code, read_operation, operation_or, get_operation,
  check_parents, check_edit_ops_hierarchy, is_removal, is_creation,
}

-- The element states that operation, by its name in RFC 6241.
abbrev pub States : Node → EditOp → Type 0
States n op = operation n ≡ some (codes (code op))

abbrev pub StatesRemoval : Node → Type 0
StatesRemoval n = States n delete ⊎ States n remove

abbrev pub StatesCreation : Node → Type 0
StatesCreation n = States n create ⊎ States n EditOp.replace

-- No operation, or a merge: rules say nothing about these.
abbrev pub StatesNeutral : Node → Type 0
StatesNeutral n = (operation n ≡ none) ⊎ States n EditOp.merge

-- The rules of the comment over `check_edit_ops_hierarchy`.
abbrev pub Compatible : Loc → DefOp → Type 0
Compatible edit defop =
    StatesNeutral edit.node
    ⊎ (StatesRemoval edit.node
        × (defop ≢ DefOp.replace)
        × All (λ p. StatesNeutral p ⊎ StatesRemoval p) edit.parents)
    ⊎ (StatesCreation edit.node × All (λ p. StatesNeutral p ⊎ StatesCreation p) edit.parents)

-- The text of an attribute is read as an operation exactly when it is that operation's name.
pub read_operation-code :
    (t : Text) (e : Bool) (op : EditOp) → read_operation t e ≡ ok op → t ≡ codes (code op)
unfolding read_operation
read_operation-code t e EditOp.merge h = ground (
  arith,
  text_eq_iff t (codes "merge"),
  text_eq_iff t (codes "replace"),
  text_eq_iff t (codes "create"),
  text_eq_iff t (codes "delete"),
  text_eq_iff t (codes "remove"),
)
read_operation-code t e _ h = ground (
  arith,
  text_eq_iff t (codes "merge"),
  text_eq_iff t (codes "replace"),
  text_eq_iff t (codes "create"),
  text_eq_iff t (codes "delete"),
  text_eq_iff t (codes "remove"),
)

pub code-read_operation :
    (op : EditOp) (e : Bool) → op ≢ EditOp.notset → read_operation (codes (code op)) e ≡ ok op
unfolding read_operation text_eq
code-read_operation EditOp.notset e h = absurd (h refl)
code-read_operation EditOp.merge e h = refl
code-read_operation _ e h = refl

pub read_operation-ne-notset : (t : Text) (e : Bool) → read_operation t e ≢ ok EditOp.notset
unfolding read_operation
read_operation-ne-notset t e h = ground arith

module _ (as_op : DefOp → EditOp) (zero_op : as_op DefOp.notset ≡ EditOp.notset) where
  abbrev Reads : Node → EditOp → Type 0
  Reads n op = get_operation as_op n DefOp.notset true ≡ ok op

  -- What a successful reading says of the element.
  abbrev Meaning : Option Text → EditOp → Type 0
  Meaning a EditOp.notset = a ≡ none
  Meaning a op = a ≡ some (codes (code op))

  Meaning-of_read :
      (a : Option Text) (op : EditOp)
      → operation_or as_op a DefOp.notset true ≡ ok op
      → Meaning a op
  Meaning-of_read none EditOp.notset h = refl
  Meaning-of_read none _ h = cc
  Meaning-of_read (some t) EditOp.notset h = absurd (read_operation-ne-notset t true h)
  Meaning-of_read (some t) EditOp.merge h = ap some (read_operation-code t true EditOp.merge h)
  Meaning-of_read (some t) EditOp.replace h = ap some (read_operation-code t true EditOp.replace h)
  Meaning-of_read (some t) create h = ap some (read_operation-code t true create h)
  Meaning-of_read (some t) delete h = ap some (read_operation-code t true delete h)
  Meaning-of_read (some t) remove h = ap some (read_operation-code t true remove h)

  Reads-Meaning : (n : Node) (op : EditOp) → Reads n op → Meaning (operation n) op
  unfolding get_operation
  Reads-Meaning n op h = Meaning-of_read (operation n) op h

  Meaning-Reads : (n : Node) (op : EditOp) → Meaning (operation n) op → Reads n op
  unfolding get_operation
  Meaning-Reads n EditOp.notset h = rw (h, operation_or) (ap ok zero_op)
  Meaning-Reads n EditOp.merge h =
      rw (h, operation_or) (code-read_operation EditOp.merge true (λ e. cc))
  Meaning-Reads n EditOp.replace h =
      rw (h, operation_or) (code-read_operation EditOp.replace true (λ e. cc))
  Meaning-Reads n create h = rw (h, operation_or) (code-read_operation create true (λ e. cc))
  Meaning-Reads n delete h = rw (h, operation_or) (code-read_operation delete true (λ e. cc))
  Meaning-Reads n remove h = rw (h, operation_or) (code-read_operation remove true (λ e. cc))

  abbrev Passes : (EditOp → Bool) → Node → Type 0
  Passes clashes n = (op : EditOp) × Reads n op × (clashes op ≡ false)

  check_parents_iff :
      (clashes : EditOp → Bool) (up : List Node)
      → (check_parents as_op clashes up ≡ ok tt) ↔ All (Passes clashes) up
  unfolding check_parents
  check_parents_iff clashes [] = (λ e. tt, λ e. refl)
  check_parents_iff clashes (p ∷ up) = ground (arith, check_parents_iff clashes up)

  Passes-creation : (n : Node) → Passes is_creation n → StatesNeutral n ⊎ StatesRemoval n
  Passes-creation n (EditOp.notset, r, c) = inl (inl (Reads-Meaning n EditOp.notset r))
  Passes-creation n (EditOp.merge, r, c) = inl (inr (Reads-Meaning n EditOp.merge r))
  Passes-creation n (delete, r, c) = inr (inl (Reads-Meaning n delete r))
  Passes-creation n (remove, r, c) = inr (inr (Reads-Meaning n remove r))
  Passes-creation n (_, r, c) = cc

  creation-Passes : (n : Node) → StatesNeutral n ⊎ StatesRemoval n → Passes is_creation n
  creation-Passes n (inl (inl h)) = (EditOp.notset, Meaning-Reads n EditOp.notset h, refl)
  creation-Passes n (inl (inr h)) = (EditOp.merge, Meaning-Reads n EditOp.merge h, refl)
  creation-Passes n (inr (inl h)) = (delete, Meaning-Reads n delete h, refl)
  creation-Passes n (inr (inr h)) = (remove, Meaning-Reads n remove h, refl)

  Passes-removal : (n : Node) → Passes is_removal n → StatesNeutral n ⊎ StatesCreation n
  Passes-removal n (EditOp.notset, r, c) = inl (inl (Reads-Meaning n EditOp.notset r))
  Passes-removal n (EditOp.merge, r, c) = inl (inr (Reads-Meaning n EditOp.merge r))
  Passes-removal n (create, r, c) = inr (inl (Reads-Meaning n create r))
  Passes-removal n (EditOp.replace, r, c) = inr (inr (Reads-Meaning n EditOp.replace r))
  Passes-removal n (_, r, c) = cc

  removal-Passes : (n : Node) → StatesNeutral n ⊎ StatesCreation n → Passes is_removal n
  removal-Passes n (inl (inl h)) = (EditOp.notset, Meaning-Reads n EditOp.notset h, refl)
  removal-Passes n (inl (inr h)) = (EditOp.merge, Meaning-Reads n EditOp.merge h, refl)
  removal-Passes n (inr (inl h)) = (create, Meaning-Reads n create h, refl)
  removal-Passes n (inr (inr h)) = (EditOp.replace, Meaning-Reads n EditOp.replace h, refl)

  abbrev Accepts : Loc → DefOp → Type 0
  Accepts edit defop = check_edit_ops_hierarchy as_op edit defop ≡ ok tt

  -- The check by the operation that was read.
  abbrev Verdict : Loc → DefOp → EditOp → Type 0
  Verdict edit defop EditOp.notset = Unit
  Verdict edit defop EditOp.merge = Unit
  Verdict edit defop EditOp.replace = All (Passes is_removal) edit.parents
  Verdict edit defop create = All (Passes is_removal) edit.parents
  Verdict edit defop _ = (defop ≢ DefOp.replace) × All (Passes is_creation) edit.parents

  Accepts-iff :
      (edit : Loc) (defop : DefOp)
      → Accepts edit defop ↔ ((op : EditOp) × Reads edit.node op × Verdict edit defop op)
  unfolding check_edit_ops_hierarchy
  Accepts-iff edit defop = ground (
    arith,
    zero_op,
    check_parents_iff is_creation edit.parents,
    check_parents_iff is_removal edit.parents,
  )

  no_creation_above :
      (ps : List Node)
      → All (Passes is_creation) ps ↔ All (λ p. StatesNeutral p ⊎ StatesRemoval p) ps
  no_creation_above ps = (All-map _ _ Passes-creation ps, All-map _ _ creation-Passes ps)

  no_removal_above :
      (ps : List Node)
      → All (Passes is_removal) ps ↔ All (λ p. StatesNeutral p ⊎ StatesCreation p) ps
  no_removal_above ps = (All-map _ _ Passes-removal ps, All-map _ _ removal-Passes ps)

  Compatible-of :
      (edit : Loc) (defop : DefOp) (op : EditOp)
      → Reads edit.node op
      → Verdict edit defop op
      → Compatible edit defop
  Compatible-of edit defop EditOp.notset r v = inl (inl (Reads-Meaning edit.node EditOp.notset r))
  Compatible-of edit defop EditOp.merge r v = inl (inr (Reads-Meaning edit.node EditOp.merge r))
  Compatible-of edit defop EditOp.replace r v =
      inr
        (inr (inr (Reads-Meaning edit.node EditOp.replace r), (no_removal_above edit.parents).0 v))
  Compatible-of edit defop create r v =
      inr (inr (inl (Reads-Meaning edit.node create r), (no_removal_above edit.parents).0 v))
  Compatible-of edit defop delete r v =
      inr
        (inl (inl (Reads-Meaning edit.node delete r), v.0, (no_creation_above edit.parents).0 v.1))
  Compatible-of edit defop remove r v =
      inr
        (inl (inr (Reads-Meaning edit.node remove r), v.0, (no_creation_above edit.parents).0 v.1))

  Verdict-of :
      (edit : Loc) (defop : DefOp)
      → Compatible edit defop
      → (op : EditOp) × Reads edit.node op × Verdict edit defop op
  Verdict-of edit defop (inl (inl h)) = (EditOp.notset, Meaning-Reads edit.node EditOp.notset h, tt)
  Verdict-of edit defop (inl (inr h)) = (EditOp.merge, Meaning-Reads edit.node EditOp.merge h, tt)
  Verdict-of edit defop (inr (inl (inl h, d, a))) =
      (delete, Meaning-Reads edit.node delete h, (d, (no_creation_above edit.parents).1 a))
  Verdict-of edit defop (inr (inl (inr h, d, a))) =
      (remove, Meaning-Reads edit.node remove h, (d, (no_creation_above edit.parents).1 a))
  Verdict-of edit defop (inr (inr (inl h, a))) =
      (create, Meaning-Reads edit.node create h, (no_removal_above edit.parents).1 a)
  Verdict-of edit defop (inr (inr (inr h, a))) = (
    EditOp.replace,
    Meaning-Reads edit.node EditOp.replace h,
    (no_removal_above edit.parents).1 a,
  )

  -- Where libnetconf's NOTSET values are one, an element is accepted exactly when it states no
  -- operation or a merge, or a removal while the default is not replace and every ancestor states
  -- nothing, a merge or a removal, or a creation while every ancestor states nothing, a merge or a
  -- creation.
  pub check_edit_ops_hierarchy_iff :
      (edit : Loc) (defop : DefOp)
      → (check_edit_ops_hierarchy as_op edit defop ≡ ok tt) ↔ Compatible edit defop
  check_edit_ops_hierarchy_iff edit defop = (
    λ e. let (op, r, v) = (Accepts-iff edit defop).0 e in Compatible-of edit defop op r v,
    λ c. (Accepts-iff edit defop).1 (Verdict-of edit defop c),
  )
