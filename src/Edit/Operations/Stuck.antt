-- ===== src/Edit/Operations/Stuck.antt =====
-- A default replace that cannot succeed: `edit_operations` of server/edit-config.c tries again for ever.
use of_config.Base.{
  ℕ, zero, suc, String, Text, true, Option, none, some, List, [], ◌∷◌, ◌≡◌, refl, sym, subst,
}
use of_config.Error.{ok, fail, NcErr}
use of_config.Xml.{Node, Forest, element, Doc}
use of_config.Ovs.Interface.{Idl}
use of_config.Edit.Operation.{replace}
use of_config.Edit.Zipper.{Zipper, loc, doc_of, at, place_of}
use of_config.Edit.Zipper.Search.{IsIn, place_of-find_element_equiv}
use of_config.Edit.Apply.{Live, Work, edit_delete, edit_create, edit_replace}
use of_config.Edit.Live.{World, Outside, above, walk}
use of_config.Edit.Live.Create.{key, create_live, create_action, no_switch_id}
use of_config.Edit.Live.Root.{ovsdb_live, delete_live-root}
use of_config.Edit.Operations.{Edits, first_of, replace_on, replace_all, edit_operations}

module _ {W : Type 0} (live : Live W) where
  edit_replace-refused :
      (n : Node) (rest : List Node) (y : Zipper) (e : Option NcErr) (again : W → W)
      → ((d : W) → live.on_delete y d ≡ ((ok tt, y.node ∷ []), again d))
      → ((d : Doc) (w : W)
          → edit_create live true (first_of n rest) (record { orig = d; world = w })
            ≡ ((fail e, n ∷ []), record { orig = d; world = w }))
      → (w : Work W) → place_of w.orig (loc (first_of n rest)) ≡ at y
      → edit_replace live true (first_of n rest) w
        ≡ ((fail e, n ∷ []), record { orig = doc_of y; world = again w.world })
  unfolding edit_replace edit_delete
  edit_replace-refused n rest y e again deletes creates w h =
      rw (edit_replace, h, edit_delete, deletes w.world) (creates (doc_of y) (again w.world))

  replace_all-stuck :
      (n : Node) (rest : List Node) (y : Zipper) (e : Option NcErr) (again : W → W)
      → ((d : W) → live.on_delete y d ≡ ((ok tt, y.node ∷ []), again d))
      → ((d : Doc) (w : W)
          → edit_create live true (first_of n rest) (record { orig = d; world = w })
            ≡ ((fail e, n ∷ []), record { orig = d; world = w }))
      → (fuel : ℕ) (w : Work W) (old : Option NcErr)
      → place_of w.orig (loc (first_of n rest)) ≡ at y
      → replace_all live true fuel (record { work = w; edit = n ∷ rest; error = old }) ≡ none
  unfolding replace_all
  replace_all-stuck n rest y e again deletes creates zero w old h = refl
  replace_all-stuck n rest y e again deletes creates (suc fuel) w old h =
      let s : Edits W = record { work = w; edit = n ∷ rest; error = old } in
      let inside : doc_of y ≡ w.orig =
        subst (IsIn w.orig) h (place_of-find_element_equiv w.orig (loc (first_of n rest))).1 in
      subst (λ p. replace_on live true rest p s (λ s'. replace_all live true fuel s') ≡ none)
        (sym (edit_replace-refused n rest y e again deletes creates w h))
        (replace_all-stuck n rest y e again deletes creates fuel _ _ (rw inside h))

module _ {R : Type 0} (out : Outside R) ⦃idl : Idl⦄ where
  create_live-refused :
      (x : String) (ns : Option Text) (f : Forest) (rest : List Node) (w : World R)
      → key out (above (element x ns none f)) "id" ≡ ok none
      → create_live out (first_of (element x ns none f) rest) w
        ≡ ((fail (some no_switch_id), element x ns none f ∷ []), w)
  unfolding create_live walk create_action
  create_live-refused x ns f rest w h = rw (create_live, walk, create_action, h) refl

  -- A default replace of a running datastore by a configuration without the switch's id never ends,
  -- where the datastore has a root and `txn_del_all` succeeds: `edit_create` refuses the new root each
  -- time, and the loop does not look at its result.
  pub default_replace-stuck :
      (x : String) (ns : Option Text) (f : Forest) (rest : List Node) (y : Zipper) (name : String)
      (href op : Option Text) (old : Forest) (again : World R → World R)
      → ((w : World R) → out.txn_del_all w ≡ (ok tt, again w))
      → key out (above (element x ns none f)) "id" ≡ ok none
      → y.ups ≡ []
      → y.node ≡ element name href op old
      → (fuel : ℕ) (s : Edits (World R)) → s.edit ≡ element x ns none f ∷ rest
      → place_of s.work.orig (loc (first_of (element x ns none f) rest)) ≡ at y
      → edit_operations (ovsdb_live out) true fuel replace s ≡ none
  unfolding edit_operations edit_create
  default_replace-stuck x ns f rest y name href op old again empties no_id top is_root fuel s e h =
      let stuck : replace_all (ovsdb_live out) true fuel
            (record { work = s.work; edit = element x ns none f ∷ rest; error = none })
          ≡ none =
        replace_all-stuck (ovsdb_live out) (element x ns none f) rest y (some no_switch_id) again
          (λ w. rw (delete_live-root out y name href op old w top is_root, empties w) refl)
          (λ d w. rw (edit_create, create_live-refused x ns f rest w no_id) refl) fuel s.work none
          h in
      rw (edit_operations, e, stuck) refl
