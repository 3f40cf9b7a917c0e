-- ===== src/Edit/Operations.antt =====
-- The whole edit of server/edit-config.c: `get_operation_elements`, `edit_operations`, and before them
-- `get_defval` and `check_edit_ops`. Elements that an XPath query has found are paths of indexes; a path
-- moves with the nodes before it, and dangles when the element is freed with another.
pub mod Each
pub mod Checks
pub mod Stuck
pub mod Roots
pub mod Steps
pub mod Ends
use of_config.Base.{
  ℕ, zero, suc, ◌-◌, ltb, ◌==◌, Text, codes, Bool, true, false, Option, none, some, List, [], ◌∷◌,
  ◌++◌, map, if◌then◌else◌, text_eq,
}
use of_config.Error.{Result, ok, fail, fault, NcErr, nc_err_new, op_failed, data_missing}
use of_config.Xml.{Node, Forest, nil, cons, element, text, other, nodes, Doc}
use of_config.Edit.Operation.{
  DefOp, notset, merge, replace, no_op, EditOp, create, delete, remove, code,
}
use of_config.Edit.Zipper.{
  forest, Frame, Zipper, loc, replaced, frame_of, Place, nowhere, broken, at, place_of,
}
use of_config.Edit.Apply.{Left, Live, Work, edit_remove, edit_replace, edit_create, edit_merge}

abbrev pub Position : Type 0
Position = List ℕ

-- `//*[@nc:operation='t']`, in document order
abbrev pub has_operation : Option Text → Text → Bool
has_operation none t = false
has_operation (some s) t = text_eq s t

abbrev pub self_if : Bool → List Position → List Position
self_if true below = [] ∷ below
self_if false below = below

abbrev pub below_index : ℕ → List Position → List Position
below_index i ps = map (λ p. i ∷ p) ps

unfoldable mutual
  pub positions_in : Text → Node → List Position
  positions_in t (element x ns op f) = self_if (has_operation op t) (positions_among t 0 f)
  positions_in t (text s) = []
  positions_in t (other x s) = []

  pub positions_among : Text → ℕ → Forest → List Position
  positions_among t i nil = []
  positions_among t i (cons n f) = below_index i (positions_in t n) ++ positions_among t (suc i) f

unfoldable pub get_operation_elements : EditOp → Doc → List Position
get_operation_elements op edit = positions_among (codes (code op)) 0 (forest edit)

-- The place at a position.
abbrev pub nth_place : List Frame → List Node → List Node → ℕ → Option Zipper
nth_place ups before [] i = none
nth_place ups before (n ∷ rest) zero =
    some (record { before = before; node = n; after = rest; ups = ups })
nth_place ups before (n ∷ rest) (suc i) = nth_place ups (before ++ n ∷ []) rest i

abbrev pub enter_node : Zipper → Node → (List Frame → List Node → Option Zipper) → Option Zipper
enter_node z (element x ns op f) k = k (frame_of z x ns op ∷ z.ups) (nodes f)
enter_node z (text t) k = none
enter_node z (other x t) k = none

abbrev pub enter : Option Zipper → (List Frame → List Node → Option Zipper) → Option Zipper
enter none k = none
enter (some z) k = enter_node z z.node k

unfoldable pub place_at : List Frame → List Node → Position → Option Zipper
place_at ups kids [] = none
place_at ups kids (i ∷ []) = nth_place ups [] kids i
place_at ups kids (i ∷ j ∷ p) =
    enter (nth_place ups [] kids i) (λ ups' kids'. place_at ups' kids' (j ∷ p))

-- A pointer after the node at another position is freed: where it points to then, if anywhere.
abbrev pub prefixed : ℕ → Option Position → Option Position
prefixed i none = none
prefixed i (some p) = some (i ∷ p)

unfoldable pub shifted : Position → Position → Option Position
shifted [] q = none
shifted (i ∷ p) [] = some []
shifted (i ∷ []) (j ∷ q) =
    if i == j then none else if ltb i j then some ((j - 1) ∷ q) else some (j ∷ q)
shifted (i ∷ k ∷ p) (j ∷ q) =
    let deeper = shifted (k ∷ p) q in if i == j then prefixed i deeper else some (j ∷ q)

abbrev pub shift_pointer : Position → Option Position → Option Position
shift_pointer p none = none
shift_pointer p (some q) = shifted p q

-- The configuration, the database, the edit, and `*error` as an earlier step has left it.
pub record Edits (W : Type 0) : Type 0 where
  pub work : Work W
  pub edit : Doc
  pub error : Option NcErr

abbrev pub Outcome : Type 0 → Type 0
Outcome W = Option (Result (Unit {0}) × Edits W)

-- What an operation does with an element of the edit: `none` where the rounds do not suffice.
abbrev pub Step : Type 0 → Type 0
Step W = Zipper → Work W → Option (Left × Work W)

-- `error:` an error is made up where there is none
abbrev pub or_op_failed : Option NcErr → Option NcErr → Option NcErr
or_op_failed (some e) old = some e
or_op_failed none (some e) = some e
or_op_failed none none = some (nc_err_new op_failed)

abbrev pub moved : Position → List Node → List (Option Position) → List (Option Position)
moved p [] ps = map (shift_pointer p) ps
moved p (n ∷ l) ps = ps

abbrev pub pointers : List Position → List (Option Position)
pointers ps = map some ps

abbrev pub count : List Position → ℕ
count [] = 0
count (p ∷ ps) = suc (count ps)

abbrev pub first_of : Node → List Node → Zipper
first_of n rest = record { before = []; node = n; after = rest; ups = [] }

-- `default replace`: the result of `edit_replace` is not looked at, its error stays in `*error`
abbrev pub noted : Result (Unit {0}) → Option NcErr → Option NcErr
noted (ok u) old = old
noted (fail none) old = old
noted (fail (some e)) old = some e
noted fault old = old

module _ {W : Type 0} where
  abbrev pub goto_error : Option NcErr → Edits W → Outcome W
  goto_error e s = some (fail (or_op_failed e s.error), s)

  abbrev pub after_step : Zipper → Left × Work W → Edits W → Edits W
  after_step z ((r, l), w) s = record s { work = w; edit = replaced z l }

  abbrev pub step_done :
      Position
      → Zipper
      → List (Option Position)
      → Option (Left × Work W)
      → Edits W
      → (List (Option Position) → Edits W → Outcome W)
      → Outcome W
  step_done p z ps none s k = none
  step_done p z ps (some ((ok u, l), w)) s k = k (moved p l ps) (after_step z ((ok u, l), w) s)
  step_done p z ps (some ((fail e, l), w)) s k = goto_error e (after_step z ((fail e, l), w) s)
  step_done p z ps (some ((fault, l), w)) s k = some (fault, after_step z ((fault, l), w) s)

  abbrev pub step_at :
      Step W
      → Position
      → Option Zipper
      → List (Option Position)
      → Edits W
      → (List (Option Position) → Edits W → Outcome W)
      → Outcome W
  step_at step p none ps s k = some (fault, s)
  step_at step p (some z) ps s k = step_done p z ps (step z s.work) s k

  -- the loop over the elements of a query
  unfoldable pub for_each : Step W → ℕ → List (Option Position) → Edits W → Outcome W
  for_each step zero ps s = some (ok tt, s)
  for_each step (suc k) [] s = some (ok tt, s)
  for_each step (suc k) (none ∷ ps) s = some (fault, s)
  for_each step (suc k) (some p ∷ ps) s =
      step_at step p (place_at [] s.edit p) ps s (λ ps' s'. for_each step k ps' s')

  abbrev pub replaced_one : List Node → Left × Work W → Edits W → Edits W
  replaced_one rest ((r, l), w) s = record { work = w; edit = l ++ rest; error = noted r s.error }

  abbrev pub merged_one : List Node → Left × Work W → Edits W → Edits W
  merged_one rest ((r, l), w) s = record s { work = w; edit = l ++ rest }

  abbrev pub stage : EditOp → Step W → Edits W → Outcome W
  stage op step s =
      let found = get_operation_elements op s.edit in for_each step (count found) (pointers found) s

  -- the next part of `edit_operations`
  infixl 5 ◌then◌
  abbrev pub ◌then◌ : Outcome W → (Edits W → Outcome W) → Outcome W
  none then k = none
  some (ok u, s) then k = k s
  some (fail e, s) then k = some (fail e, s)
  some (fault, s) then k = some (fault, s)

module _ {W : Type 0} (live : Live W) (running : Bool) where
  -- the edit's element goes when its counterparts are gone
  abbrev pub and_drop : Zipper → Option (Result (Unit {0}) × Work W) → Option (Left × Work W)
  and_drop z none = none
  and_drop z (some (ok u, w)) = some ((ok tt, []), w)
  and_drop z (some (fail e, w)) = some ((fail e, z.node ∷ []), w)
  and_drop z (some (fault, w)) = some ((fault, z.node ∷ []), w)

  abbrev pub remove_step : ℕ → Zipper → Work W → Option (Left × Work W)
  remove_step fuel z w = and_drop z (edit_remove live running fuel (loc z) w)

  abbrev pub delete_found :
      Place → Option (Left × Work W) → Zipper → Work W → Option (Left × Work W)
  delete_found nowhere all z w = some ((fail (some (nc_err_new data_missing)), z.node ∷ []), w)
  delete_found broken all z w = some ((fault, z.node ∷ []), w)
  delete_found (at y) all z w = all

  abbrev pub delete_step : ℕ → Zipper → Work W → Option (Left × Work W)
  delete_step fuel z w = delete_found (place_of w.orig (loc z)) (remove_step fuel z w) z w

  abbrev pub replace_step : Zipper → Work W → Option (Left × Work W)
  replace_step z w = some (edit_replace live running z w)

  abbrev pub create_step : Zipper → Work W → Option (Left × Work W)
  create_step z w = some (edit_create live running z w)

  abbrev pub merge_step : Zipper → Work W → Option (Left × Work W)
  merge_step z w = some (edit_merge live running z.ups z.before z.node z.after w)

  abbrev pub replace_on : List Node → Left × Work W → Edits W → (Edits W → Outcome W) → Outcome W
  replace_on rest ((ok u, l), w) s k = k (replaced_one rest ((ok u, l), w) s)
  replace_on rest ((fail e, l), w) s k = k (replaced_one rest ((fail e, l), w) s)
  replace_on rest ((fault, l), w) s k = some (fault, replaced_one rest ((fault, l), w) s)

  abbrev pub replace_first : List Node → Edits W → (Edits W → Outcome W) → Outcome W
  replace_first [] s k = some (ok tt, s)
  replace_first (n ∷ rest) s k =
      replace_on rest (edit_replace live running (first_of n rest) s.work) s k

  unfoldable pub replace_all : ℕ → Edits W → Outcome W
  replace_all zero s = none
  replace_all (suc fuel) s = replace_first s.edit s (λ s'. replace_all fuel s')

  -- `default merge`
  abbrev pub merge_on : List Node → Left × Work W → Edits W → (Edits W → Outcome W) → Outcome W
  merge_on rest ((ok u, l), w) s k = k (merged_one rest ((ok u, l), w) s)
  merge_on rest ((fail e, l), w) s k = goto_error e (merged_one rest ((fail e, l), w) s)
  merge_on rest ((fault, l), w) s k = some (fault, merged_one rest ((fault, l), w) s)

  abbrev pub merge_first : List Node → Edits W → (Edits W → Outcome W) → Outcome W
  merge_first [] s k = some (ok tt, s)
  merge_first (n ∷ rest) s k = merge_on rest (edit_merge live running [] [] n rest s.work) s k

  unfoldable pub merge_all : ℕ → Edits W → Outcome W
  merge_all zero s = none
  merge_all (suc fuel) s = merge_first s.edit s (λ s'. merge_all fuel s')

  abbrev pub if_replace : DefOp → ℕ → Edits W → Outcome W
  if_replace notset fuel s = some (ok tt, s)
  if_replace merge fuel s = some (ok tt, s)
  if_replace replace fuel s = replace_all fuel s
  if_replace no_op fuel s = some (ok tt, s)

  abbrev pub if_merge : DefOp → ℕ → Edits W → Outcome W
  if_merge notset fuel s = merge_all fuel s
  if_merge merge fuel s = merge_all fuel s
  if_merge replace fuel s = some (ok tt, s)
  if_merge no_op fuel s = some (ok tt, s)

  unfoldable pub edit_operations : ℕ → DefOp → Edits W → Outcome W
  edit_operations fuel defop s =
      if_replace defop fuel (record s { error = none })
      then stage delete (delete_step fuel)
      then stage remove (remove_step fuel)
      then stage EditOp.replace replace_step
      then stage create create_step
      then stage EditOp.merge merge_step
      then if_merge defop fuel
