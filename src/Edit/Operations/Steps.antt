-- ===== src/Edit/Operations/Steps.antt =====
-- The stages of `edit_operations` of server/edit-config.c outside a running datastore: how each element's
-- operation ends, and with it the loop over the elements.
use of_config.Base.{
  ℕ, zero, suc, ◌<◌, ◌≤◌, true, false, Option, none, some, List, [], ◌∷◌, ◌≡◌, inl, inr, refl, sym,
  ap, arith, subst, Bool-cases,
}
use of_config.Error.{Result, ok, fail, fault, nc_err_new, data_missing}
use of_config.Xml.{Node, element, text, other, Loc, Doc}
use of_config.Edit.Matching.{is_key}
use of_config.Edit.Zipper.{Zipper, loc, doc_of, replaced, Place, nowhere, broken, at, place_of}
use of_config.Edit.Zipper.Search.{IsIn, place_of-find_element_equiv}
use of_config.Edit.Apply.{Left, Live, Work, edit_delete, edit_remove, edit_merge, found_to_merge}
use of_config.Edit.Apply.Removal.{size_list, size-replaced, Place-cases}
use of_config.Edit.Apply.Clean.{Clean, Clean-edit_create, Clean-edit_merge}
use of_config.Edit.Operations.{
  Position, place_at, Edits, Outcome, Step, step_done, step_at, after_step, moved, for_each, ◌then◌,
  and_drop, remove_step, delete_found, merge_step,
}
use of_config.Edit.Operations.Roots.{Roots, Roots-replaced, Holds, Holds-place_at}

module _ {W : Type 0} where
  -- The document has not grown.
  abbrev pub Shrunk : ℕ → Option (Result (Unit {0}) × Work W) → Type 0
  Shrunk n none = ⊥
  Shrunk n (some (ok u, w)) = size_list w.orig ≤ n
  Shrunk n (some (fail e, w)) = ⊥
  Shrunk n (some (fault, w)) = Unit

  Shrunk-mono :
      (m n : ℕ) (o : Option (Result (Unit {0}) × Work W)) → m ≤ n → Shrunk m o → Shrunk n o
  Shrunk-mono m n none h s = s
  Shrunk-mono m n (some (ok u, w)) h s = omega arith
  Shrunk-mono m n (some (fail e, w)) h s = s
  Shrunk-mono m n (some (fault, w)) h s = s

  -- The run succeeds in a state like that, finds nothing to delete, or follows a NULL or a dangling pointer.
  abbrev pub Answered : (Edits W → Type 0) → Outcome W → Type 0
  Answered inv none = ⊥
  Answered inv (some (ok u, s)) = inv s
  Answered inv (some (fail e, s)) = e ≡ some (nc_err_new data_missing)
  Answered inv (some (fault, s)) = Unit

  abbrev pub StepAnswered : (Edits W → Type 0) → Zipper → Edits W → Option (Left × Work W) → Type 0
  StepAnswered inv z s none = ⊥
  StepAnswered inv z s (some ((ok u, l), w)) = inv (after_step z ((ok u, l), w) s)
  StepAnswered inv z s (some ((fail e, l), w)) = e ≡ some (nc_err_new data_missing)
  StepAnswered inv z s (some ((fault, l), w)) = Unit

  pub Answered-then :
      (p q : Edits W → Type 0) (o : Outcome W) (k : Edits W → Outcome W)
      → Answered p o
      → ((s : Edits W) → p s → Answered q (k s))
      → Answered q (o then k)
  Answered-then p q none k h f = h
  Answered-then p q (some (ok u, s)) k h f = f s h
  Answered-then p q (some (fail e, s)) k h f = h
  Answered-then p q (some (fault, s)) k h f = h

  pub Answered-weaken :
      (p q : Edits W → Type 0) (o : Outcome W)
      → ((s : Edits W) → p s → q s)
      → Answered p o
      → Answered q o
  Answered-weaken p q none f h = h
  Answered-weaken p q (some (ok u, s)) f h = f s h
  Answered-weaken p q (some (fail e, s)) f h = h
  Answered-weaken p q (some (fault, s)) f h = h

module _ {W : Type 0} (live : Live W) where
  Shrunk-edit_remove :
      (fuel : ℕ) (edit : Loc) (w : Work W)
      → size_list w.orig < fuel
      → Shrunk (size_list w.orig) (edit_remove live false fuel edit w)
  unfolding edit_remove edit_delete
  Shrunk-edit_remove zero edit w h = absurd (omega arith)
  Shrunk-edit_remove (suc fuel) edit w h = elim (Place-cases (place_of w.orig edit)) [
    | inl e ↦ rw (edit_remove, e) (omega arith)
    | inr (inl e) ↦ rw (edit_remove, e) tt
    | inr (inr (z, e)) ↦
        let inside : doc_of z ≡ w.orig =
          subst (IsIn w.orig) e (place_of-find_element_equiv w.orig edit).1 in
        let smaller : size_list (replaced z []) < size_list w.orig =
          omega (arith, size-replaced z, ap size_list inside) in
        let rest : Shrunk (size_list (replaced z []))
            (edit_remove live false fuel edit (record w { orig = replaced z [] })) =
          Shrunk-edit_remove fuel edit (record w { orig = replaced z [] }) (omega arith) in
        let whole : Shrunk (size_list w.orig)
            (edit_remove live false fuel edit (record w { orig = replaced z [] })) =
          Shrunk-mono _ _ _ (omega arith) rest in
        rw (edit_remove, e) whole
  ]

  module _ (step : Step W) (inv : Edits W → Type 0)
      (fits : (z : Zipper) (s : Edits W)
        → doc_of z ≡ s.edit
        → inv s
        → StepAnswered inv z s (step z s.work)) where
    Answered-step_done :
        (p : Position) (z : Zipper) (ps : List (Option Position)) (s : Edits W)
        (o : Option (Left × Work W)) (k : List (Option Position) → Edits W → Outcome W)
        → StepAnswered inv z s o
        → ((qs : List (Option Position)) (t : Edits W) → inv t → Answered inv (k qs t))
        → Answered inv (step_done p z ps o s k)
    Answered-step_done p z ps s none k h f = h
    Answered-step_done p z ps s (some ((ok u, l), w)) k h f =
        f (moved p l ps) (after_step z ((ok u, l), w) s) h
    Answered-step_done p z ps s (some ((fail e, l), w)) k h f = rw h refl
    Answered-step_done p z ps s (some ((fault, l), w)) k h f = tt

    Answered-step_at :
        (p : Position) (o : Option Zipper) (ps : List (Option Position)) (s : Edits W)
        (k : List (Option Position) → Edits W → Outcome W)
        → Holds s.edit o
        → inv s
        → ((qs : List (Option Position)) (t : Edits W) → inv t → Answered inv (k qs t))
        → Answered inv (step_at step p o ps s k)
    Answered-step_at p none ps s k e h f = tt
    Answered-step_at p (some z) ps s k e h f =
        Answered-step_done p z ps s (step z s.work) k (fits z s e h) f

    pub Answered-for_each :
        (n : ℕ) (ps : List (Option Position)) (s : Edits W)
        → inv s
        → Answered inv (for_each step n ps s)
    unfolding for_each
    Answered-for_each zero ps s h = h
    Answered-for_each (suc n) [] s h = h
    Answered-for_each (suc n) (none ∷ ps) s h = tt
    Answered-for_each (suc n) (some p ∷ ps) s h =
        Answered-step_at p (place_at [] s.edit p) ps s (λ qs t. for_each step n qs t)
          (Holds-place_at [] s.edit p) h (λ qs t i. Answered-for_each n qs t i)

  -- What holds before each step: the document is small enough for the fuel, and the edit's top is as required.
  abbrev pub Ready : ℕ → ℕ → Edits W → Type 0
  Ready fuel k s = (size_list s.work.orig < fuel) × Roots k s.edit

  abbrev pub Rooted : ℕ → Edits W → Type 0
  Rooted k s = Roots k s.edit

  pub Roots-taken :
      (k : ℕ) (z : Zipper) (d : Doc) → doc_of z ≡ d → Roots k d → Roots k (replaced z [])
  Roots-taken k z d e r = Roots-replaced k z (subst (Roots k) (sym e) r)

  StepAnswered-and_drop :
      (fuel k n : ℕ) (z : Zipper) (s : Edits W) (o : Option (Result (Unit {0}) × Work W))
      → doc_of z ≡ s.edit
      → n < fuel
      → Roots k s.edit
      → Shrunk n o
      → StepAnswered (Ready fuel k) z s (and_drop live false z o)
  StepAnswered-and_drop fuel k n z s none e h r q = q
  StepAnswered-and_drop fuel k n z s (some (ok u, w)) e h r q =
      (omega arith, Roots-taken k z s.edit e r)
  StepAnswered-and_drop fuel k n z s (some (fail x, w)) e h r q = absurd q
  StepAnswered-and_drop fuel k n z s (some (fault, w)) e h r q = tt

  pub StepAnswered-remove_step :
      (fuel k : ℕ) (z : Zipper) (s : Edits W)
      → doc_of z ≡ s.edit
      → Ready fuel k s
      → StepAnswered (Ready fuel k) z s (remove_step live false fuel z s.work)
  StepAnswered-remove_step fuel k z s e (h, r) =
      StepAnswered-and_drop fuel k (size_list s.work.orig) z s
        (edit_remove live false fuel (loc z) s.work) e h r
        (Shrunk-edit_remove fuel (loc z) s.work h)

  pub StepAnswered-delete_found :
      (fuel k : ℕ) (p : Place) (z : Zipper) (s : Edits W) (o : Option (Left × Work W))
      → StepAnswered (Ready fuel k) z s o
      → StepAnswered (Ready fuel k) z s (delete_found live false p o z s.work)
  StepAnswered-delete_found fuel k nowhere z s o h = refl
  StepAnswered-delete_found fuel k broken z s o h = tt
  StepAnswered-delete_found fuel k (at y) z s o h = h

  pub StepAnswered-Clean :
      (k : ℕ) (z : Zipper) (s : Edits W) (p : Left × Work W)
      → doc_of z ≡ s.edit
      → Roots k s.edit
      → Clean p
      → StepAnswered (Rooted k) z s (some p)
  StepAnswered-Clean k z s ((ok u, l), w) e r c = rw c (Roots-taken k z s.edit e r)
  StepAnswered-Clean k z s ((fail x, l), w) e r c = absurd c
  StepAnswered-Clean k z s ((fault, l), w) e r c = tt

  StepAnswered-found_to_merge :
      (k : ℕ) (p : Place) (z : Zipper) (s : Edits W) (deeper : Left × Work W)
      → doc_of z ≡ s.edit
      → Roots k s.edit
      → is_key (loc z) ≡ true
      → StepAnswered (Rooted k) z s (some (found_to_merge live false p z s.work deeper))
  StepAnswered-found_to_merge k nowhere z s deeper e r h =
      StepAnswered-Clean k z s _ e r (Clean-edit_create live z s.work)
  StepAnswered-found_to_merge k broken z s deeper e r h = tt
  StepAnswered-found_to_merge k (at y) z s deeper e r h = rw h (subst (Roots k) (sym e) r)

  StepAnswered-keyed :
      (k : ℕ) (n : Node) (z : Zipper) (s : Edits W)
      → z.node ≡ n
      → doc_of (record z { node = n }) ≡ s.edit
      → Roots k s.edit
      → is_key (loc (record z { node = n })) ≡ true
      → StepAnswered
          (Rooted k)
          (record z { node = n })
          s
          (some (edit_merge live false z.ups z.before n z.after s.work))
  unfolding edit_merge
  StepAnswered-keyed k (element x ns op f) z s m e r h =
      StepAnswered-found_to_merge k _ (record z { node = element x ns op f }) s _ e r h
  StepAnswered-keyed k (text t) z s m e r h =
      StepAnswered-found_to_merge k _ (record z { node = text t }) s _ e r h
  StepAnswered-keyed k (other x t) z s m e r h =
      StepAnswered-found_to_merge k _ (record z { node = other x t }) s _ e r h

  pub StepAnswered-merge_step :
      (k : ℕ) (z : Zipper) (s : Edits W)
      → doc_of z ≡ s.edit
      → Roots k s.edit
      → StepAnswered (Rooted k) z s (merge_step live false z s.work)
  StepAnswered-merge_step k z s e r = elim (Bool-cases (is_key (loc z))) [
    | inl h ↦ StepAnswered-keyed k z.node z s refl e r h
    | inr h ↦
        StepAnswered-Clean k z s _ e r
          (Clean-edit_merge live z.ups z.before z.node z.after s.work h)
  ]
