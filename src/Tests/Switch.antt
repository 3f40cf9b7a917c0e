-- ===== src/Tests/Switch.antt =====
-- The theorems about bridges, controllers and interfaces on a small database.
use of_config.Base.{false, arith, ℕ, codes, none, some, [], ◌∷◌, ◌≡◌, refl, count_if}
use of_config.Error.{ok}
use of_config.Ovs.Db.{smap_init, smap_replace}
use of_config.Ovs.Txn.{Ovsdb}
use of_config.Ovs.Db.{OpenVswitch, Controller}
use of_config.Ovs.Bridges.{txn_del_bridge, names_bridge_surely}
use of_config.Ovs.Bridges.Remove.{txn_del_bridge_lem, deleted}
use of_config.Ovs.AdminState.{Ioctl, dev_get_flags, dev_set_flags, txn_mod_port_admin_state}
use of_config.Ovs.AdminState.Changed.{txn_mod_port_admin_state-changed}
use of_config.Ovs.AdminState.Reached.{Reached, txn_mod_port_admin_state-reached}
use of_config.Tests.Idl.{sample_idl}
use of_config.Tests.Rows.{rows}

-- The table Open_vSwitch refers to the bridge.
abbrev with_table : Ovsdb
with_table = record {
  db = record rows { open_vswitch = record { uuid = 40; bridges = 1 ∷ [] } ∷ [] };
  issued = [];
}

abbrev table_row : OpenVswitch
table_row = record { uuid = 40; bridges = 1 ∷ [] }

txn_del_bridge_lem_example :
    txn_del_bridge ⦃idl = sample_idl⦄ (some (codes "br0")) with_table
    ≡ deleted ⦃idl = sample_idl⦄ table_row
        (codes "br0")
        (1 ∷ [])
        (count_if (names_bridge_surely with_table.db (codes "br0")) (1 ∷ []))
        with_table
txn_del_bridge_lem_example =
    txn_del_bridge_lem ⦃idl = sample_idl⦄ (codes "br0") with_table table_row refl ((λ e. cc), tt)

abbrev contr1 : Controller
contr1 = record {
  uuid = 50;
  target = codes "ssl:10.0.0.1:6653";
  local_ip = none;
  connection_mode = none;
  external_ids = smap_replace smap_init "ofconfig-id" (codes "c1");
}

abbrev with_controller : Ovsdb
with_controller = record { db = record rows { controllers = contr1 ∷ [] }; issued = [] }

-- One interface, whose flags are the state.
abbrev one_interface : Ioctl ℕ
one_interface = record { get_flags = λ k x. some k; set_flags = λ k x f. some f }

set_up :
    txn_mod_port_admin_state one_interface (some (codes "p1")) (some (codes "up")) 4098
    ≡ (ok tt, 4099)
unfolding txn_mod_port_admin_state of_config.Base.text_eq dev_get_flags dev_set_flags
set_up = refl

txn_mod_port_admin_state-reached_example :
    Reached one_interface (codes "p1") (some (codes "up")) 4098 4099
txn_mod_port_admin_state-reached_example =
    txn_mod_port_admin_state-reached one_interface (codes "p1") (some (codes "up")) 4098 4099 set_up

txn_mod_port_admin_state-changed_example :
    txn_mod_port_admin_state one_interface (some (codes "p1")) (some (codes "down")) 4099
    ≡ (ok tt, 4098)
txn_mod_port_admin_state-changed_example =
    txn_mod_port_admin_state-changed one_interface false (codes "p1") 4099 4098 4099 4098
      (omega arith) (omega arith) (omega arith) refl refl refl

-- A port whose state is left to the default, and which is not up, but has another flag set, stays so.
left_down : txn_mod_port_admin_state one_interface (some (codes "p1")) none 4098 ≡ (ok tt, 4098)
unfolding txn_mod_port_admin_state dev_get_flags
left_down = refl
