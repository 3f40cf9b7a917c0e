-- ===== src/Edit/Live/Create.antt =====
-- `edit_create` of server/edit-config.c with `running` set: what is created in OVSDB for a node of the
-- edit, by its name and those of its ancestors.
use of_config.Base.{String, Text, Option, none, some, List, [], ◌∷◌, str_eq, if◌then◌else◌, ◌||◌}
use of_config.Error.{Result, fail, NcErr, nc_err_new, missing_elem, bad_element_msg, failed_msg}
use of_config.Xml.{name, children, child_content}
use of_config.Ovs.Interface.{Idl}
use of_config.Ovs.Txn.{Txn, ◌>>=◌, gets, lift, raise, pure}
use of_config.Ovs.Ports.{txn_add_bridge_port, txn_mod_port_reqnumber}
use of_config.Ovs.Tunnels.{txn_add_port_tunnel, txn_mod_port_tunnel_opt}
use of_config.Ovs.QueueRefs.{BridgeQueue, linked, invalid, unlinked, ofc_check_bridge_queue}
use of_config.Ovs.Queues.{
  txn_add_queue, txn_add_queue_port, txn_mod_queue_id, txn_mod_queue_options,
}
use of_config.Ovs.FlowTables.{
  txn_add_flow_table, txn_add_bridge_flowtable, txn_mod_flowtable_name, txn_mod_flowtable_resid,
}
use of_config.Ovs.Bridges.{txn_add_bridge, txn_mod_bridge_datapath, txn_mod_bridge_failmode}
use of_config.Ovs.Controllers.{txn_add_contr, txn_mod_contr_lip, txn_mod_contr_target}
use of_config.Edit.Zipper.{Frame, Zipper}
use of_config.Edit.Apply.{Left}
use of_config.Edit.Live.{
  World, Outside, Ancestor, above, parent_of, get_key, Action, skip, run, descend, advertised,
  give_up, with_key, each, walk_at, txn, put_id,
}
use of_config.Edit.Live.Delete.{grandparent_named}

abbrev pub no_switch_id : NcErr
no_switch_id = record (nc_err_new missing_elem) {
  info_badelem = some "id";
  msg = some "Missing capable-switch's id";
}

-- a queue of a logical switch is only looked up
abbrev pub queue_leafref : BridgeQueue → Txn (Unit {0})
queue_leafref linked = pure tt
queue_leafref invalid = raise (bad_element_msg "queue" "Invalid queue leafref")
queue_leafref unlinked = raise (
    failed_msg "Assigning queue to the bridge (port) must be done by the port element in the queue")

unfoldable pub check_leafref : Option Text → Option Text → Txn (Unit {0})
check_leafref key aux = do
  d ← gets (λ d. d)
  found ← lift (ofc_check_bridge_queue d key aux)
  queue_leafref found

module _ {R : Type 0} (out : Outside R) ⦃idl : Idl⦄ where
  abbrev pub key : Ancestor → String → Result (Option Text)
  key = get_key out.is_blank

  abbrev pub create_leafref : Zipper → Option Text → Option Text → Action (World R)
  create_leafref z k none =
      give_up (fail (some (bad_element_msg (name z.node) "invalid resources leafref")))
  create_leafref z k (some aux) =
      if str_eq (name z.node) "port"
      then txn (txn_add_bridge_port k (some aux))
      else if str_eq (name z.node) "flow-table"
      then txn (txn_add_bridge_flowtable k (some aux))
      else if str_eq (name z.node) "queue"
      then txn (check_leafref k (some aux))
      else skip

  -- below `resources`
  unfoldable pub create_resource : Zipper → List Frame → Action (World R)
  create_resource z ups =
      let x = name z.node in
      if grandparent_named ups "capable-switch"
      then (if str_eq x "port"
          then run (out.txn_add_port z.node)
          else if str_eq x "queue"
          then txn (txn_add_queue (some z.node))
          else if str_eq x "owned-certificate"
          then run (out.add_owned_certificate z.node)
          else if str_eq x "external-certificate"
          then run (out.add_external_certificate z.node)
          else if str_eq x "flow-table"
          then txn (txn_add_flow_table (some z.node))
          else skip)
      else with_key (key (parent_of 1 z) "id") (λ k. create_leafref z k (child_content z.node))

  -- below `port`
  unfoldable pub create_in_port : Zipper → Action (World R)
  create_in_port z =
      let x = name z.node in
      if str_eq x "requested-number"
      then with_key (key (parent_of 0 z) "name")
          (λ k. txn (txn_mod_port_reqnumber k (child_content z.node)))
      else if str_eq x "ipgre-tunnel" || str_eq x "vxlan-tunnel" || str_eq x "tunnel"
      then with_key (key (parent_of 0 z) "name") (λ k. txn (txn_add_port_tunnel k (some z.node)))
      else if str_eq x "features"
      then advertised
      else descend

  -- below `queue`, `private-key`, `flow-table`, `switch` and `controller`
  unfoldable pub create_in_queue : Zipper → Action (World R)
  create_in_queue z =
      let x = name z.node in
      if str_eq x "id"
      then with_key (key (parent_of 0 z) "resource-id")
          (λ k. txn (txn_mod_queue_id k (child_content z.node)))
      else if str_eq x "port"
      then with_key (key (parent_of 0 z) "resource-id")
          (λ k. txn (txn_add_queue_port k (child_content z.node)))
      else if str_eq x "properties"
      then descend
      else skip

  unfoldable pub create_in_private_key : Zipper → Action (World R)
  create_in_private_key z =
      let x = name z.node in
      with_key (key (parent_of 1 z) "resource-id") λ k.
        if str_eq x "key-type"
        then run (out.txn_mod_own_cert_key_type k (some z.node))
        else if str_eq x "key-data"
        then run (out.txn_mod_own_cert_key_data k (some z.node))
        else skip

  unfoldable pub create_in_flow_table : Zipper → Action (World R)
  create_in_flow_table z =
      let x = name z.node in
      with_key (key (parent_of 0 z) "table-id") λ k.
        if str_eq x "name"
        then txn (txn_mod_flowtable_name out.node_content k (some z.node))
        else if str_eq x "resource-id"
        then txn (txn_mod_flowtable_resid k (some z.node))
        else skip

  unfoldable pub create_in_switch : Zipper → Action (World R)
  create_in_switch z =
      let x = name z.node in
      with_key (key (parent_of 0 z) "id") λ k.
        if str_eq x "datapath-id"
        then txn (txn_mod_bridge_datapath k (child_content z.node))
        else if str_eq x "controllers" || str_eq x "resources"
        then descend
        else if str_eq x "lost-connection-behavior"
        then txn (txn_mod_bridge_failmode k (child_content z.node))
        else skip

  unfoldable pub create_in_controller : Zipper → Action (World R)
  create_in_controller z =
      let x = name z.node in
      with_key (key (parent_of 0 z) "id") λ k.
        if str_eq x "local-ip-address"
        then txn (txn_mod_contr_lip k (child_content z.node))
        else if str_eq x "ip-address" || str_eq x "port" || str_eq x "protocol"
        then txn (txn_mod_contr_target k (some x) (child_content z.node))
        else skip

  abbrev pub create_deeper : Zipper → String → Action (World R)
  create_deeper z up =
      let x = name z.node in
      if str_eq up "properties"
      then with_key (key (parent_of 1 z) "resource-id")
          (λ k. txn (txn_mod_queue_options k (some x) (some z.node)))
      else if str_eq x "private-key"
      then descend
      else if str_eq up "owned-certificate"
      then with_key (key (parent_of 0 z) "resource-id")
          (λ k. run (out.mod_own_cert_certificate k (some z.node)))
      else if str_eq up "external-certificate"
      then with_key (key (parent_of 0 z) "resource-id")
          (λ k. run (out.mod_ext_cert_certificate k (some z.node)))
      else if str_eq up "private-key"
      then create_in_private_key z
      else if str_eq up "flow-table"
      then create_in_flow_table z
      else if str_eq x "switch"
      then txn (txn_add_bridge (some z.node))
      else if str_eq up "switch"
      then create_in_switch z
      else if str_eq x "controller"
      then with_key (key (parent_of 1 z) "id") (λ k. txn (txn_add_contr (some z.node) k))
      else if str_eq up "controller"
      then create_in_controller z
      else skip

  abbrev pub create_below : Zipper → String → List Frame → Action (World R)
  create_below z up ups =
      let x = name z.node in
      if str_eq up "capable-switch"
      then (if str_eq x "id" then put_id (some z.node) else descend)
      else if str_eq up "resources"
      then create_resource z ups
      else if str_eq up "port"
      then create_in_port z
      else if str_eq up "configuration"
      then with_key (key (parent_of 1 z) "name")
          (λ k. run (out.of_mod_port_cfg k x (child_content z.node)))
      else if str_eq x "advertised"
      then with_key (key (parent_of 1 z) "name")
          (λ k. run (each (out.add_port_advert k) (children z.node)))
      else if str_eq up "advertised"
      then with_key (key (parent_of 2 z) "name") (λ k. run (out.add_port_advert k z.node))
      else if str_eq up "ipgre-tunnel" || str_eq up "vxlan-tunnel" || str_eq up "tunnel"
      then with_key (key (parent_of 1 z) "name")
          (λ k. txn (txn_mod_port_tunnel_opt k (some x) (child_content z.node)))
      else if str_eq up "queue"
      then create_in_queue z
      else create_deeper z up

  abbrev pub create_root : Option Text → Action (World R)
  create_root none = give_up (fail (some no_switch_id))
  create_root (some k) = descend

  abbrev pub create_at : Zipper → List Frame → Action (World R)
  create_at z [] = with_key (key (above z.node) "id") create_root
  create_at z (f ∷ ups) = create_below z f.name ups

  unfoldable pub create_action : Zipper → Action (World R)
  create_action z = create_at z z.ups

  unfoldable pub create_live : Zipper → World R → Left × World R
  create_live = walk_at (λ op. none) create_action
