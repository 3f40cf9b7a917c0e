-- ===== src/Edit/Live/Delete.antt =====
-- `edit_delete` of server/edit-config.c with `running` set: what is deleted from OVSDB for a node, by its
-- name and those of its ancestors.
use of_config.Base.{
  String, Text, Bool, false, Option, none, some, List, [], ◌∷◌, str_eq, if◌then◌else◌, ◌||◌,
}
use of_config.Error.{Result, fail, bad_element_msg}
use of_config.Xml.{name, children, child_content}
use of_config.Ovs.Interface.{Idl}
use of_config.Ovs.Ports.{txn_del_port, txn_del_bridge_port, txn_mod_port_reqnumber}
use of_config.Ovs.Tunnels.{txn_del_port_tunnel, txn_mod_port_tunnel_opt}
use of_config.Ovs.Queues.{txn_del_queue, txn_del_queue_port, txn_mod_queue_options}
use of_config.Ovs.FlowTables.{
  txn_del_flow_table, txn_del_bridge_flowtable, txn_mod_flowtable_name, txn_mod_flowtable_resid,
}
use of_config.Ovs.Bridges.{txn_del_bridge, txn_mod_bridge_datapath, txn_mod_bridge_failmode}
use of_config.Ovs.Controllers.{txn_del_contr, txn_mod_contr_lip, txn_mod_contr_target}
use of_config.Edit.Zipper.{Frame, Zipper}
use of_config.Edit.Apply.{Left}
use of_config.Edit.Live.{
  World, Outside, Ancestor, above, parent_of, get_key, Action, skip, run, return, descend,
  advertised, give_up, with_key, with_keys, each, walk_at, txn, put_id,
}

-- `node->parent->parent->name` where the parent is an element; a document has no name
abbrev pub grandparent_named : List Frame → String → Bool
grandparent_named [] x = false
grandparent_named (f ∷ ups) x = str_eq f.name x

module _ {R : Type 0} (out : Outside R) ⦃idl : Idl⦄ where
  abbrev pub key : Ancestor → String → Result (Option Text)
  key = get_key out.is_blank

  abbrev pub delete_leafref : Zipper → Option Text → Option Text → Action (World R)
  delete_leafref z k none =
      give_up (fail (some (bad_element_msg (name z.node) "invalid resources leafref")))
  delete_leafref z k (some aux) =
      if str_eq (name z.node) "port"
      then txn (txn_del_bridge_port k (some aux))
      else if str_eq (name z.node) "flow-table"
      then txn (txn_del_bridge_flowtable k (some aux))
      else skip

  -- below `resources`
  unfoldable pub delete_resource : Zipper → List Frame → Action (World R)
  delete_resource z ups =
      let x = name z.node in
      if grandparent_named ups "capable-switch"
      then (if str_eq x "port"
          then with_key (key (above z.node) "name") (λ k. txn (txn_del_port k))
          else if str_eq x "queue"
          then with_key (key (above z.node) "resource-id") (λ k. txn (txn_del_queue k))
          else if str_eq x "owned-certificate"
          then run (out.del_owned_certificate z.node)
          else if str_eq x "external-certificate"
          then run (out.del_external_certificate z.node)
          else if str_eq x "flow-table"
          then with_key (key (above z.node) "table-id") (λ k. txn (txn_del_flow_table k))
          else skip)
      else with_key (key (parent_of 1 z) "id") (λ k. delete_leafref z k (child_content z.node))

  -- below `port`
  unfoldable pub delete_in_port : Zipper → Action (World R)
  delete_in_port z =
      let x = name z.node in
      if str_eq x "requested-number"
      then with_key (key (parent_of 0 z) "name") (λ k. txn (txn_mod_port_reqnumber k none))
      else if str_eq x "ipgre-tunnel" || str_eq x "vxlan-tunnel" || str_eq x "tunnel"
      then with_key (key (parent_of 0 z) "name")
          (λ k. txn (txn_del_port_tunnel out.dev_is_system k))
      else if str_eq x "features"
      then advertised
      else descend

  -- below `queue`, `private-key`, `flow-table`, `switch` and `controller`
  unfoldable pub delete_in_queue : Zipper → Action (World R)
  delete_in_queue z =
      let x = name z.node in
      if str_eq x "port"
      then with_key (key (parent_of 0 z) "resource-id") (λ k. txn (txn_del_queue_port k))
      else if str_eq x "properties"
      then descend
      else skip

  unfoldable pub delete_in_private_key : Zipper → Action (World R)
  delete_in_private_key z =
      let x = name z.node in
      with_key (key (parent_of 1 z) "resource-id") λ k.
        if str_eq x "key-type"
        then run (out.txn_mod_own_cert_key_type k none)
        else if str_eq x "key-data"
        then run (out.txn_mod_own_cert_key_data k none)
        else skip

  unfoldable pub delete_in_flow_table : Zipper → Action (World R)
  delete_in_flow_table z =
      let x = name z.node in
      with_key (key (parent_of 0 z) "table-id") λ k.
        if str_eq x "name"
        then txn (txn_mod_flowtable_name out.node_content k none)
        else if str_eq x "resource-id"
        then txn (txn_mod_flowtable_resid k none)
        else skip

  unfoldable pub delete_in_switch : Zipper → Action (World R)
  delete_in_switch z =
      let x = name z.node in
      with_key (key (parent_of 0 z) "id") λ k.
        if str_eq x "datapath-id"
        then txn (txn_mod_bridge_datapath k none)
        else if str_eq x "controllers" || str_eq x "resources"
        then descend
        else if str_eq x "lost-connection-behavior"
        then txn (txn_mod_bridge_failmode k none)
        else skip

  unfoldable pub delete_in_controller : Zipper → Action (World R)
  delete_in_controller z =
      let x = name z.node in
      with_key (key (parent_of 0 z) "id") λ k.
        if str_eq x "local-ip-address"
        then txn (txn_mod_contr_lip k none)
        else if str_eq x "ip-address" || str_eq x "port" || str_eq x "protocol"
        then txn (txn_mod_contr_target k (some x) none)
        else skip

  -- the rest of the chain, from `advertised` on
  abbrev pub delete_deeper : Zipper → String → Action (World R)
  delete_deeper z up =
      let x = name z.node in
      if str_eq up "properties"
      then with_key (key (parent_of 1 z) "resource-id")
          (λ k. txn (txn_mod_queue_options k (some x) none))
      else if str_eq up "owned-certificate"
      then with_key (key (parent_of 0 z) "resource-id")
          (λ k. run (out.mod_own_cert_certificate k none))
      else if str_eq x "private-key"
      then descend
      else if str_eq up "private-key"
      then delete_in_private_key z
      else if str_eq up "external-certificate"
      then with_key (key (parent_of 0 z) "resource-id")
          (λ k. run (out.mod_ext_cert_certificate k none))
      else if str_eq up "flow-table"
      then delete_in_flow_table z
      else if str_eq x "switch"
      then with_key (key (above z.node) "id") (λ k. txn (txn_del_bridge k))
      else if str_eq up "switch"
      then delete_in_switch z
      else if str_eq x "controller"
      then with_keys (key (above z.node) "id") (key (parent_of 1 z) "id")
          (λ k aux. txn (txn_del_contr k aux))
      else if str_eq up "controller"
      then delete_in_controller z
      else skip

  abbrev pub delete_below : Zipper → String → List Frame → Action (World R)
  delete_below z up ups =
      let x = name z.node in
      if str_eq up "capable-switch"
      then (if str_eq x "id" then put_id none else descend)
      else if str_eq up "resources"
      then delete_resource z ups
      else if str_eq up "port"
      then delete_in_port z
      else if str_eq up "configuration"
      then with_key (key (parent_of 1 z) "name") (λ k. run (out.of_mod_port_cfg k x none))
      else if str_eq x "advertised"
      then with_key (key (parent_of 1 z) "name")
          (λ k. run (each (out.del_port_advert k) (children z.node)))
      else if str_eq up "advertised"
      then with_key (key (parent_of 2 z) "name") (λ k. run (out.del_port_advert k z.node))
      else if str_eq up "ipgre-tunnel" || str_eq up "vxlan-tunnel" || str_eq up "tunnel"
      then with_key (key (parent_of 1 z) "name")
          (λ k. txn (txn_mod_port_tunnel_opt k (some x) none))
      else if str_eq up "queue"
      then delete_in_queue z
      else delete_deeper z up

  abbrev pub delete_at : Zipper → List Frame → Action (World R)
  delete_at z [] = return out.txn_del_all
  delete_at z (f ∷ ups) = delete_below z f.name ups

  unfoldable pub delete_action : Zipper → Action (World R)
  delete_action z = delete_at z z.ups

  unfoldable pub delete_live : Zipper → World R → Left × World R
  delete_live = walk_at (λ op. op) delete_action
