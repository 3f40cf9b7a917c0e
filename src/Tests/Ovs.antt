-- ===== src/Tests/Ovs.antt =====
-- The theorems about server/ovs-data.c on a small database.
use of_config.Base.{Text, codes, some, ◌≡◌, refl, count_if}
use of_config.Error.{ok}
use of_config.Ovs.Db.{smap_init, smap_replace}
use of_config.Ovs.Idl.{bridge_other_config}
use of_config.Ovs.Txn.{Ovsdb, set}
use of_config.Ovs.Ports.{find_bridge, find_port, txn_del_bridge_port, txn_add_bridge_port}
use of_config.Ovs.Ports.Remove.{txn_del_bridge_port_lem, removed, is_named}
use of_config.Ovs.Ports.Add.{del-add_bridge_port}
use of_config.Ovs.Queues.{txn_add_queue_port}
use of_config.Ovs.QueueRefs.{find_queue}
use of_config.Ovs.Queues.Change.{KeysAgree, txn_add_queue_port-KeysAgree}
use of_config.Ovs.FlowTables.{txn_add_bridge_flowtable}
use of_config.Ovs.FlowTables.Link.{TableKeysAgree, txn_add_bridge_flowtable-TableKeysAgree}
use of_config.Ovs.Address.{parse_target_to_addr, print_target}
use of_config.Ovs.Address.Target.{parse_target-print_target}
use of_config.Base.{sscanf_i64, pos}
use of_config.Ovs.Bridges.{format_dpid, txn_mod_bridge_datapath}
use of_config.Ovs.Bridges.Datapath.{mod_bridge_datapath-format_dpid}
use of_config.Tests.Idl.{sample_idl}
use of_config.Tests.Rows.{br0, p2, rows, start}

br0_found : find_bridge (codes "br0") rows ≡ some br0
unfolding find_bridge of_config.Base.text_eq
br0_found = refl

p2_found : find_port (codes "p2") rows ≡ some p2
unfolding find_port of_config.Base.text_eq
p2_found = refl

no_p2_yet : count_if (is_named rows (codes "p2")) br0.ports ≡ 0
unfolding of_config.Base.text_eq
no_p2_yet = refl

del-add_bridge_port_example :
    ((txn_add_bridge_port ⦃idl = sample_idl⦄ (some (codes "br0")) (some (codes "p2")) start).0
      ≡ ok tt)
    × ((txn_del_bridge_port ⦃idl = sample_idl⦄
          (some (codes "br0"))
          (some (codes "p2"))
          (txn_add_bridge_port ⦃idl = sample_idl⦄
            (some (codes "br0"))
            (some (codes "p2"))
            start).1).0
        ≡ ok tt)
    × ((txn_del_bridge_port ⦃idl = sample_idl⦄
          (some (codes "br0"))
          (some (codes "p2"))
          (txn_add_bridge_port ⦃idl = sample_idl⦄
            (some (codes "br0"))
            (some (codes "p2"))
            start).1).1.db
        ≡ rows)
del-add_bridge_port_example =
    del-add_bridge_port ⦃idl = sample_idl⦄ (codes "br0") (codes "p2") start br0 p2 br0_found
      p2_found ((λ e. refl), tt) refl ((λ e. cc), tt) no_p2_yet

txn_del_bridge_port_lem_example :
    txn_del_bridge_port ⦃idl = sample_idl⦄ (some (codes "br0")) (some (codes "p1")) start
    ≡ removed ⦃idl = sample_idl⦄ br0
        (codes "p1")
        start
        (count_if (is_named rows (codes "p1")) br0.ports)
txn_del_bridge_port_lem_example =
    txn_del_bridge_port_lem ⦃idl = sample_idl⦄ (codes "br0") (codes "p1") start br0 br0_found
      ((λ e. cc), tt)

abbrev linked : Ovsdb
linked = (txn_add_queue_port ⦃idl = sample_idl⦄ (some (codes "q1")) (some (codes "p1")) start).1

q1_linked :
    txn_add_queue_port ⦃idl = sample_idl⦄ (some (codes "q1")) (some (codes "p1")) start
    ≡ (ok tt, linked)
unfolding txn_add_queue_port find_queue of_config.Base.text_eq find_port of_config.Base.sscanf_i64
    of_config.Base.isspace
q1_linked = refl

txn_add_queue_port-KeysAgree_example : KeysAgree linked.db
txn_add_queue_port-KeysAgree_example =
    txn_add_queue_port-KeysAgree ⦃idl = sample_idl⦄ (codes "q1") (codes "p1") start linked tt
      (refl, tt) q1_linked

three : sscanf_i64 (codes "3") ≡ some (pos 3)
unfolding sscanf_i64 of_config.Base.isspace
three = refl

txn_add_bridge_flowtable-TableKeysAgree_example :
    TableKeysAgree
      (txn_add_bridge_flowtable ⦃idl = sample_idl⦄
        (some (codes "br0"))
        (some (codes "3"))
        start).1.db
txn_add_bridge_flowtable-TableKeysAgree_example =
    txn_add_bridge_flowtable-TableKeysAgree ⦃idl = sample_idl⦄ (some (codes "br0")) (codes "3")
      (pos 3) start three (tt, tt) (refl, tt)

parse_target-print_target_example :
    parse_target_to_addr
      (some (print_target (codes "ssl") (codes "10.0.0.1") (some (codes "6653"))))
    ≡ ok (record {
      protocol = some (codes "tls");
      address = some (codes "10.0.0.1");
      port = some (codes "6653");
    })
unfolding of_config.Base.text_eq
parse_target-print_target_example =
    parse_target-print_target (codes "ssl") (codes "10.0.0.1") (some (codes "6653"))
      (refl, (refl, (refl, tt))) (refl, (refl, (refl, (refl, (refl, (refl, (refl, (refl, tt))))))))
      (refl, (refl, (refl, (refl, (refl, (refl, (refl, (refl, tt))))))))
      (refl, (refl, (refl, (refl, tt))))

abbrev dpid : Text
dpid = codes "00aa11bb22cc33dd"

mod_bridge_datapath-format_dpid_example :
    (printed : Text) × (format_dpid dpid ≡ ok printed)
    × (txn_mod_bridge_datapath ⦃idl = sample_idl⦄ (some (codes "br0")) (some printed) start
        ≡ set ⦃idl = sample_idl⦄
            (bridge_other_config 1 (smap_replace smap_init "datapath-id" dpid))
            start)
mod_bridge_datapath-format_dpid_example =
    mod_bridge_datapath-format_dpid ⦃idl = sample_idl⦄ (codes "br0") start br0 dpid br0_found refl (
      refl,
      (
        refl,
        (
          refl,
          (
            refl,
            (
              refl,
              (
                refl,
                (refl, (refl, (refl, (refl, (refl, (refl, (refl, (refl, (refl, (refl, tt)))))))))),
              ),
            ),
          ),
        ),
      ),
    )
