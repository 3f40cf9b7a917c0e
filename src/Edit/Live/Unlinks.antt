-- ===== src/Edit/Live/Unlinks.antt =====
-- The actions of `edit_delete` below the root, and of `edit_create`, in server/edit-config.c: none of them
-- returns without unlinking the node.
use of_config.Base.{
  String, Text, Bool, true, false, Option, none, some, List, [], ◌∷◌, ◌≡◌, if◌then◌else◌, sym,
  subst,
}
use of_config.Error.{Result, ok, fail, fault}
use of_config.Ovs.Interface.{Idl}
use of_config.Edit.Zipper.{Frame, Zipper}
use of_config.Edit.Live.{World, Outside, Action, skip, run, return, descend, advertised, with_key}
use of_config.Edit.Live.Delete.{
  delete_leafref, delete_resource, delete_in_port, delete_in_queue, delete_in_private_key,
  delete_in_flow_table, delete_in_switch, delete_in_controller, delete_deeper, delete_below,
  delete_at, delete_action,
}
use of_config.Edit.Live.Create.{
  create_leafref, create_resource, create_in_port, create_in_queue, create_in_private_key,
  create_in_flow_table, create_in_switch, create_in_controller, create_deeper, create_below,
  create_root, create_at, create_action,
}

-- An action after which the node is gone_if_ok if it succeeds.
unfoldable pub Unlinks : (W : Type 0) → Action W → Type 0
Unlinks W skip = Unit
Unlinks W (run g) = Unit
Unlinks W (return g) = ⊥
Unlinks W descend = Unit
Unlinks W advertised = Unit

module _ (W : Type 0) where
  Unlinks-skip : Unlinks W skip
  unfolding Unlinks
  Unlinks-skip = tt

  Unlinks-run : (g : W → Result (Unit {0}) × W) → Unlinks W (run g)
  unfolding Unlinks
  Unlinks-run g = tt

  Unlinks-descend : Unlinks W descend
  unfolding Unlinks
  Unlinks-descend = tt

  Unlinks-advertised : Unlinks W advertised
  unfolding Unlinks
  Unlinks-advertised = tt

  Unlinks-if :
      (b : Bool) (a c : Action W) → Unlinks W a → Unlinks W c → Unlinks W (if b then a else c)
  Unlinks-if true a c h k = h
  Unlinks-if false a c h k = k

  Unlinks-with_key :
      (r : Result (Option Text)) (act : Option Text → Action W)
      → ((k : Option Text) → Unlinks W (act k))
      → Unlinks W (with_key r act)
  Unlinks-with_key (ok k) act h = h k
  Unlinks-with_key (fail e) act h = Unlinks-run _
  Unlinks-with_key fault act h = Unlinks-run _

ruleset unlinks =
    (Unlinks-skip, Unlinks-run, Unlinks-descend, Unlinks-advertised, Unlinks-if, Unlinks-with_key)

module _ {R : Type 0} (out : Outside R) ⦃idl : Idl⦄ where
  Unlinks-delete_leafref :
      (z : Zipper) (k t : Option Text) → Unlinks (World R) (delete_leafref out z k t)
  Unlinks-delete_leafref z k none = search unlinks
  Unlinks-delete_leafref z k (some t) = search unlinks

  Unlinks-delete_resource :
      (z : Zipper) (ups : List Frame) → Unlinks (World R) (delete_resource out z ups)
  unfolding delete_resource
  Unlinks-delete_resource z ups = search (unlinks, Unlinks-delete_leafref) depth 16

  Unlinks-delete_in_port : (z : Zipper) → Unlinks (World R) (delete_in_port out z)
  unfolding delete_in_port
  Unlinks-delete_in_port z = search unlinks depth 16

  Unlinks-delete_in_queue : (z : Zipper) → Unlinks (World R) (delete_in_queue out z)
  unfolding delete_in_queue
  Unlinks-delete_in_queue z = search unlinks depth 16

  Unlinks-delete_in_private_key : (z : Zipper) → Unlinks (World R) (delete_in_private_key out z)
  unfolding delete_in_private_key
  Unlinks-delete_in_private_key z = search unlinks depth 16

  Unlinks-delete_in_flow_table : (z : Zipper) → Unlinks (World R) (delete_in_flow_table out z)
  unfolding delete_in_flow_table
  Unlinks-delete_in_flow_table z = search unlinks depth 16

  Unlinks-delete_in_switch : (z : Zipper) → Unlinks (World R) (delete_in_switch out z)
  unfolding delete_in_switch
  Unlinks-delete_in_switch z = search unlinks depth 16

  Unlinks-delete_in_controller : (z : Zipper) → Unlinks (World R) (delete_in_controller out z)
  unfolding delete_in_controller
  Unlinks-delete_in_controller z = search unlinks depth 16

  Unlinks-delete_deeper : (z : Zipper) (up : String) → Unlinks (World R) (delete_deeper out z up)
  Unlinks-delete_deeper z up =
      search
        (
          unlinks, Unlinks-delete_in_private_key, Unlinks-delete_in_flow_table,
          Unlinks-delete_in_switch, Unlinks-delete_in_controller,
        )
        depth 32

  Unlinks-delete_below :
      (z : Zipper) (up : String) (ups : List Frame) → Unlinks (World R) (delete_below out z up ups)
  Unlinks-delete_below z up ups =
      search
        (
          unlinks, Unlinks-delete_resource, Unlinks-delete_in_port, Unlinks-delete_in_queue,
          Unlinks-delete_deeper,
        )
        depth 32

  Unlinks-create_leafref :
      (z : Zipper) (k t : Option Text) → Unlinks (World R) (create_leafref out z k t)
  Unlinks-create_leafref z k none = search unlinks
  Unlinks-create_leafref z k (some t) = search unlinks

  Unlinks-create_resource :
      (z : Zipper) (ups : List Frame) → Unlinks (World R) (create_resource out z ups)
  unfolding create_resource
  Unlinks-create_resource z ups = search (unlinks, Unlinks-create_leafref) depth 16

  Unlinks-create_in_port : (z : Zipper) → Unlinks (World R) (create_in_port out z)
  unfolding create_in_port
  Unlinks-create_in_port z = search unlinks depth 16

  Unlinks-create_in_queue : (z : Zipper) → Unlinks (World R) (create_in_queue out z)
  unfolding create_in_queue
  Unlinks-create_in_queue z = search unlinks depth 16

  Unlinks-create_in_private_key : (z : Zipper) → Unlinks (World R) (create_in_private_key out z)
  unfolding create_in_private_key
  Unlinks-create_in_private_key z = search unlinks depth 16

  Unlinks-create_in_flow_table : (z : Zipper) → Unlinks (World R) (create_in_flow_table out z)
  unfolding create_in_flow_table
  Unlinks-create_in_flow_table z = search unlinks depth 16

  Unlinks-create_in_switch : (z : Zipper) → Unlinks (World R) (create_in_switch out z)
  unfolding create_in_switch
  Unlinks-create_in_switch z = search unlinks depth 16

  Unlinks-create_in_controller : (z : Zipper) → Unlinks (World R) (create_in_controller out z)
  unfolding create_in_controller
  Unlinks-create_in_controller z = search unlinks depth 16

  Unlinks-create_deeper : (z : Zipper) (up : String) → Unlinks (World R) (create_deeper out z up)
  Unlinks-create_deeper z up =
      search
        (
          unlinks, Unlinks-create_in_private_key, Unlinks-create_in_flow_table,
          Unlinks-create_in_switch, Unlinks-create_in_controller,
        )
        depth 32

  Unlinks-create_below :
      (z : Zipper) (up : String) (ups : List Frame) → Unlinks (World R) (create_below out z up ups)
  Unlinks-create_below z up ups =
      search
        (
          unlinks, Unlinks-create_resource, Unlinks-create_in_port, Unlinks-create_in_queue,
          Unlinks-create_deeper,
        )
        depth 32

  pub Unlinks-delete_action :
      (z : Zipper) (f : Frame) (ups : List Frame)
      → z.ups ≡ f ∷ ups
      → Unlinks (World R) (delete_action out z)
  unfolding delete_action
  Unlinks-delete_action z f ups e =
      subst (λ u. Unlinks (World R) (delete_at out z u)) (sym e) (Unlinks-delete_below z f.name ups)

  Unlinks-create_root : (k : Option Text) → Unlinks (World R) (create_root out k)
  Unlinks-create_root none = search unlinks
  Unlinks-create_root (some k) = search unlinks

  Unlinks-create_at : (z : Zipper) (ups : List Frame) → Unlinks (World R) (create_at out z ups)
  Unlinks-create_at z [] = search (unlinks, Unlinks-create_root)
  Unlinks-create_at z (f ∷ ups) = Unlinks-create_below z f.name ups

  pub Unlinks-create_action : (z : Zipper) → Unlinks (World R) (create_action out z)
  unfolding create_action
  Unlinks-create_action z = Unlinks-create_at z z.ups
