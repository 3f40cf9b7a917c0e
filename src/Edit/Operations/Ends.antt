-- ===== src/Edit/Operations/Ends.antt =====
-- Outside a running datastore `edit_operations` of server/edit-config.c ends.
use of_config.Base.{
  ℕ, zero, suc, ◌<◌, false, none, some, List, [], ◌∷◌, ◌≡◌, refl, sym, arith, subst,
}
use of_config.Error.{ok, fail, fault}
use of_config.Xml.{Node, Doc}
use of_config.Edit.Operation.{DefOp, notset, merge, replace, no_op, EditOp, create, delete, remove}
use of_config.Edit.Zipper.{Zipper, loc, doc_of, place_of}
use of_config.Edit.Apply.{Left, Live, Work, edit_create, edit_replace, edit_merge}
use of_config.Edit.Apply.Removal.{size_list}
use of_config.Edit.Apply.Clean.{Clean, Clean-edit_create, Clean-edit_replace, Clean-edit_merge}
use of_config.Edit.Operations.{
  get_operation_elements, Edits, Outcome, Step, for_each, stage, ◌then◌, first_of, replace_on,
  replace_first, replace_all, merge_on, merge_first, merge_all, remove_step, delete_step,
  replace_step, create_step, merge_step, if_merge, edit_operations,
}
use of_config.Edit.Operations.Roots.{Roots}
use of_config.Edit.Operations.Steps.{
  Answered, Answered-then, Answered-weaken, Answered-for_each, StepAnswered, Ready, Rooted,
  StepAnswered-remove_step, StepAnswered-delete_found, StepAnswered-Clean, StepAnswered-merge_step,
}

module _ {W : Type 0} (live : Live W) where
  abbrev pub Emptied : Edits W → Type 0
  Emptied s = s.edit ≡ []

  Answered-replace_on :
      (rest : List Node) (p : Left × Work W) (s : Edits W) (k : Edits W → Outcome W)
      → Clean p
      → ((t : Edits W) → t.edit ≡ rest → Answered Emptied (k t))
      → Answered Emptied (replace_on live false rest p s k)
  Answered-replace_on rest ((ok u, l), w) s k c f = f _ (rw c refl)
  Answered-replace_on rest ((fail e, l), w) s k c f = absurd c
  Answered-replace_on rest ((fault, l), w) s k c f = tt

  Answered-replace_first :
      (k : ℕ) (d : Doc) (s : Edits W) (go : Edits W → Outcome W)
      → s.edit ≡ d
      → Roots k d
      → ((j : ℕ) (t : Edits W) → k ≡ suc j → Roots j t.edit → Answered Emptied (go t))
      → Answered Emptied (replace_first live false d s go)
  Answered-replace_first k [] s go e r f = e
  Answered-replace_first zero (n ∷ rest) s go e r f = absurd r
  Answered-replace_first (suc k) (n ∷ rest) s go e r f =
      Answered-replace_on rest (edit_replace live false (first_of n rest) s.work) s go
        (Clean-edit_replace live (first_of n rest) s.work)
        (λ t i. f k t refl (subst (Roots k) (sym i) r.1))

  Answered-replace_all :
      (fuel k : ℕ) (s : Edits W)
      → k < fuel
      → Roots k s.edit
      → Answered Emptied (replace_all live false fuel s)
  unfolding replace_all
  Answered-replace_all zero k s h r = absurd (omega arith)
  Answered-replace_all (suc fuel) k s h r =
      Answered-replace_first k s.edit s (λ t. replace_all live false fuel t) refl r
        (λ j t e i. Answered-replace_all fuel j t (omega arith) i)

  Answered-merge_on :
      (rest : List Node) (p : Left × Work W) (s : Edits W) (k : Edits W → Outcome W)
      → Clean p
      → ((t : Edits W) → t.edit ≡ rest → Answered Emptied (k t))
      → Answered Emptied (merge_on live false rest p s k)
  Answered-merge_on rest ((ok u, l), w) s k c f = f _ (rw c refl)
  Answered-merge_on rest ((fail e, l), w) s k c f = absurd c
  Answered-merge_on rest ((fault, l), w) s k c f = tt

  Answered-merge_first :
      (k : ℕ) (d : Doc) (s : Edits W) (go : Edits W → Outcome W)
      → s.edit ≡ d
      → Roots k d
      → ((j : ℕ) (t : Edits W) → k ≡ suc j → Roots j t.edit → Answered Emptied (go t))
      → Answered Emptied (merge_first live false d s go)
  Answered-merge_first k [] s go e r f = e
  Answered-merge_first zero (n ∷ rest) s go e r f = absurd r
  Answered-merge_first (suc k) (n ∷ rest) s go e r f =
      Answered-merge_on rest (edit_merge live false [] [] n rest s.work) s go
        (Clean-edit_merge live [] [] n rest s.work r.0)
        (λ t i. f k t refl (subst (Roots k) (sym i) r.1))

  Answered-merge_all :
      (fuel k : ℕ) (s : Edits W)
      → k < fuel
      → Roots k s.edit
      → Answered Emptied (merge_all live false fuel s)
  unfolding merge_all
  Answered-merge_all zero k s h r = absurd (omega arith)
  Answered-merge_all (suc fuel) k s h r =
      Answered-merge_first k s.edit s (λ t. merge_all live false fuel t) refl r
        (λ j t e i. Answered-merge_all fuel j t (omega arith) i)

  Answered-empty_stage :
      (op : EditOp) (step : Step W) (s : Edits W) → s.edit ≡ [] → Answered Emptied (stage op step s)
  unfolding get_operation_elements of_config.Edit.Operations.positions_among for_each
  Answered-empty_stage op step s e = rw e refl

  Answered-stage :
      (op : EditOp) (step : Step W) (inv : Edits W → Type 0) (s : Edits W)
      → ((z : Zipper) (t : Edits W)
          → doc_of z ≡ t.edit
          → inv t
          → StepAnswered inv z t (step z t.work))
      → inv s
      → Answered inv (stage op step s)
  Answered-stage op step inv s fits h = Answered-for_each live step inv fits _ _ s h

  -- What a run that succeeds leaves of the edit: nothing, unless the default operation is `none`.
  abbrev pub Applied : DefOp → Edits W → Type 0
  Applied notset s = Emptied s
  Applied merge s = Emptied s
  Applied replace s = Emptied s
  Applied no_op s = Unit

  Applied-if_merge :
      (fuel k : ℕ) (defop : DefOp) (s : Edits W)
      → k < fuel
      → (defop ≡ replace → s.edit ≡ [])
      → Roots k s.edit
      → Answered (Applied defop) (if_merge live false defop fuel s)
  Applied-if_merge fuel k notset s h e r = Answered-merge_all fuel k s h r
  Applied-if_merge fuel k merge s h e r = Answered-merge_all fuel k s h r
  Applied-if_merge fuel k replace s h e r = e refl
  Applied-if_merge fuel k no_op s h e r = tt

  -- The operations of the elements, one kind after the other.
  abbrev pub stages : ℕ → Outcome W → Outcome W
  stages fuel o =
      o
      then stage delete (delete_step live false fuel)
      then stage remove (remove_step live false fuel)
      then stage EditOp.replace (replace_step live false)
      then stage create (create_step live false)
      then stage EditOp.merge (merge_step live false)

  Answered-chain :
      (fuel : ℕ) (p q : Edits W → Type 0) (o : Outcome W)
      → Answered p o
      → ((s : Edits W) → p s → Answered p (stage delete (delete_step live false fuel) s))
      → ((s : Edits W) → p s → Answered q (stage remove (remove_step live false fuel) s))
      → ((s : Edits W) → q s → Answered q (stage EditOp.replace (replace_step live false) s))
      → ((s : Edits W) → q s → Answered q (stage create (create_step live false) s))
      → ((s : Edits W) → q s → Answered q (stage EditOp.merge (merge_step live false) s))
      → Answered q (stages fuel o)
  Answered-chain fuel p q o h d r rp cr mg =
      let o1 = o then stage delete (delete_step live false fuel) in
      let o2 = o1 then stage remove (remove_step live false fuel) in
      let o3 = o2 then stage EditOp.replace (replace_step live false) in
      let o4 = o3 then stage create (create_step live false) in
      let h1 : Answered p o1 = Answered-then p p o _ h d in
      let h2 : Answered q o2 = Answered-then p q o1 _ h1 r in
      let h3 : Answered q o3 = Answered-then q q o2 _ h2 rp in
      let h4 : Answered q o4 = Answered-then q q o3 _ h3 cr in Answered-then q q o4 _ h4 mg

  Answered-stages :
      (fuel k : ℕ) (s : Edits W)
      → Ready live fuel k s
      → Answered (Rooted live k) (stages fuel (some (ok tt, s)))
  Answered-stages fuel k s h =
      Answered-chain fuel (Ready live fuel k) (Rooted live k) (some (ok tt, s)) h
        (λ t i.
          Answered-stage delete (delete_step live false fuel) (Ready live fuel k) t
            (λ z u e r.
              StepAnswered-delete_found live fuel k (place_of u.work.orig (loc z)) z u _
                (StepAnswered-remove_step live fuel k z u e r))
            i)
        (λ t i.
          Answered-weaken (Ready live fuel k) (Rooted live k) _ (λ u j. j.1)
            (Answered-stage remove (remove_step live false fuel) (Ready live fuel k) t
              (λ z u e r. StepAnswered-remove_step live fuel k z u e r) i))
        (λ t i.
          Answered-stage EditOp.replace (replace_step live false) (Rooted live k) t
            (λ z u e r.
              StepAnswered-Clean live k z u (edit_replace live false z u.work) e r
                (Clean-edit_replace live z u.work))
            i)
        (λ t i.
          Answered-stage create (create_step live false) (Rooted live k) t
            (λ z u e r.
              StepAnswered-Clean live k z u (edit_create live false z u.work) e r
                (Clean-edit_create live z u.work))
            i)
        (λ t i.
          Answered-stage EditOp.merge (merge_step live false) (Rooted live k) t
            (λ z u e r. StepAnswered-merge_step live k z u e r) i)

  Answered-empty_stages :
      (fuel : ℕ) (o : Outcome W) → Answered Emptied o → Answered Emptied (stages fuel o)
  Answered-empty_stages fuel o h =
      Answered-chain fuel Emptied Emptied o h (Answered-empty_stage _ _) (Answered-empty_stage _ _)
        (Answered-empty_stage _ _) (Answered-empty_stage _ _) (Answered-empty_stage _ _)

  Answered-merged :
      (fuel k : ℕ) (defop : DefOp) (s : Edits W)
      → Ready live fuel k s
      → k < fuel
      → (defop ≡ replace → ⊥)
      → Answered (Applied defop) (stages fuel (some (ok tt, s)) then if_merge live false defop fuel)
  Answered-merged fuel k defop s h b n =
      Answered-then (Rooted live k) (Applied defop) (stages fuel (some (ok tt, s)))
        (if_merge live false defop fuel) (Answered-stages fuel k s h)
        (λ t i. Applied-if_merge fuel k defop t b (λ e. absurd (n e)) i)

  -- Outside a running datastore `edit_operations` ends, where the fuel is more than the nodes of the
  -- configuration and the nodes at the top of the edit, and none of these is named like a key: it
  -- succeeds, and then nothing of the edit is left unless the default operation is `none`; or it fails
  -- because an element to delete is missing; or it follows a NULL or a dangling pointer.
  pub edit_operations-Answered :
      (fuel k : ℕ) (defop : DefOp) (s : Edits W)
      → size_list s.work.orig < fuel
      → Roots k s.edit
      → k < fuel
      → Answered (Applied defop) (edit_operations live false fuel defop s)
  unfolding edit_operations
  edit_operations-Answered fuel k notset s h r b =
      Answered-merged fuel k notset (record s { error = none }) (h, r) b (λ e. cc)
  edit_operations-Answered fuel k merge s h r b =
      Answered-merged fuel k merge (record s { error = none }) (h, r) b (λ e. cc)
  edit_operations-Answered fuel k replace s h r b =
      Answered-then Emptied Emptied
        (stages fuel (replace_all live false fuel (record s { error = none })))
        (if_merge live false replace fuel)
        (Answered-empty_stages fuel _ (Answered-replace_all fuel k (record s { error = none }) b r))
        (λ t i. i)
  edit_operations-Answered fuel k no_op s h r b =
      Answered-merged fuel k no_op (record s { error = none }) (h, r) b (λ e. cc)
