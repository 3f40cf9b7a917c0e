-- ===== src/Edit/Live/Root.antt =====
-- Which nodes `edit_delete` and `edit_create` of server/edit-config.c take out of the document when they
-- work on OVSDB: all but the root of the configuration.
use of_config.Base.{ℕ, String, Text, true, Option, none, List, [], ◌∷◌, ◌≡◌, refl}
use of_config.Error.{Result, ok, fail, fault}
use of_config.Xml.{Node, Forest, element, text, other, Loc}
use of_config.Ovs.Interface.{Idl}
use of_config.Edit.Zipper.{Frame, Zipper, at, place_of}
use of_config.Edit.Apply.{Left, Live, Work, edit_remove}
use of_config.Edit.Apply.Removal.{edit_remove-stuck}
use of_config.Edit.Live.{
  perform, World, Outside, Action, skip, run, return, descend, advertised, walk, gone_if_ok,
  emptied,
}
use of_config.Edit.Live.Delete.{delete_action, delete_live}
use of_config.Edit.Live.Create.{create_action, create_live}
use of_config.Edit.Live.Unlinks.{Unlinks, Unlinks-delete_action, Unlinks-create_action}

module _ {W : Type 0} where
  -- What is left of a node after a call that succeeds: nothing.
  abbrev pub Settled : Left × W → Type 0
  Settled ((ok u, l), w) = l ≡ []
  Settled ((fail e, l), w) = Unit
  Settled ((fault, l), w) = Unit

  Settled-gone_if_ok : (n : Node) (p : Result (Unit {0}) × W) → Settled (gone_if_ok n p)
  Settled-gone_if_ok n (ok u, w) = refl
  Settled-gone_if_ok n (fail e, w) = tt
  Settled-gone_if_ok n (fault, w) = tt

  Settled-emptied : (f : Frame) (p : Left × W) → Settled (emptied f p)
  Settled-emptied f ((ok u, l), w) = refl
  Settled-emptied f ((fail e, l), w) = tt
  Settled-emptied f ((fault, l), w) = tt

  Settled-ok : (p : Left × W) → Settled p → p.0.0 ≡ ok tt → p.0.1 ≡ []
  Settled-ok ((ok u, l), w) s h = s
  Settled-ok ((fail e, l), w) s h = cc
  Settled-ok ((fault, l), w) s h = cc

  Settled-perform :
      (a : Action W) (n : Node) (here : Frame) (all some_child : W → Left × W) (w : W)
      → Unlinks W a
      → Settled (perform a n here all some_child w)
  unfolding Unlinks
  Settled-perform skip n here all some_child w h = refl
  Settled-perform (run g) n here all some_child w h = Settled-gone_if_ok n (g w)
  Settled-perform (return g) n here all some_child w h = absurd h
  Settled-perform descend n here all some_child w h = Settled-emptied here (all w)
  Settled-perform advertised n here all some_child w h = Settled-emptied here (some_child w)

  module _ (strip : Option Text → Option Text) (act : Zipper → Action W) where
    Settled-walk :
        (z : Zipper) (n : Node) (w : W)
        → ((m : Node) → Unlinks W (act (record z { node = m })))
        → Settled (walk strip act z.ups z.before n z.after w)
    unfolding walk
    Settled-walk z (text t) w h = refl
    Settled-walk z (other x t) w h = refl
    Settled-walk z (element x ns op f) w h =
        Settled-perform _ _ _ _ _ w (h (element x ns (strip op) f))

module _ {R : Type 0} (out : Outside R) ⦃idl : Idl⦄ where
  -- A node with a parent, which `edit_delete` deletes from OVSDB with success, is taken out of the
  -- document.
  pub delete_live-unlinks :
      (z : Zipper) (f : Frame) (ups : List Frame) (w : World R)
      → z.ups ≡ f ∷ ups
      → (delete_live out z w).0.0 ≡ ok tt
      → (delete_live out z w).0.1 ≡ []
  unfolding delete_live
  delete_live-unlinks z f ups w e h =
      Settled-ok _
        (Settled-walk (λ op. op) (delete_action out) z z.node w
          λ m. Unlinks-delete_action out (record z { node = m }) f ups e)
        h

  -- A node of the edit that `edit_create` creates in OVSDB with success is taken out of the edit.
  pub create_live-unlinks :
      (z : Zipper) (w : World R)
      → (create_live out z w).0.0 ≡ ok tt
      → (create_live out z w).0.1 ≡ []
  unfolding create_live
  create_live-unlinks z w h =
      Settled-ok _
        (Settled-walk (λ op. none) (create_action out) z z.node w
          λ m. Unlinks-create_action out (record z { node = m }))
        h

  -- The server's database behind `edit_delete`, `edit_create` and `edit_replace`.
  abbrev pub ovsdb_live : Live (World R)
  ovsdb_live = record {
    on_delete = delete_live out;
    on_create = create_live out;
    del_all = out.txn_del_all;
  }

  pub delete_live-root :
      (z : Zipper) (x : String) (ns op : Option Text) (f : Forest) (w : World R)
      → z.ups ≡ []
      → z.node ≡ element x ns op f
      → delete_live out z w ≡ (((out.txn_del_all w).0, z.node ∷ []), (out.txn_del_all w).1)
  unfolding delete_live walk delete_action
  delete_live-root z x ns op f w e n = rw (delete_live, n, walk, delete_action, e) refl

  -- `remove` of the whole configuration of a running datastore: where `txn_del_all` always succeeds, no
  -- number of rounds is enough, since the root stays in the document and is found again.
  remove_root-stuck :
      (edit : Loc) (z : Zipper) (x : String) (ns op : Option Text) (f : Forest)
      (again : World R → World R)
      → ((w : World R) → out.txn_del_all w ≡ (ok tt, again w))
      → z.ups ≡ []
      → z.node ≡ element x ns op f
      → (fuel : ℕ) (w : Work (World R)) → place_of w.orig edit ≡ at z
      → edit_remove ovsdb_live true fuel edit w ≡ none
  remove_root-stuck edit z x ns op f again empties e n =
      edit_remove-stuck ovsdb_live edit z again
        λ w. rw (delete_live-root z x ns op f w e n, empties w) refl
