-- ===== src/Ovs/Idl.antt =====
-- The OVSDB IDL, which server/ovs-data.c calls and which is no part of the repository. A call is a
-- value; what it does to the rows is a parameter, with the documented behaviour as laws: a column
-- that is set can be read at once, an inserted row is visible with default columns, and a deleted
-- row is no longer visited. What a deletion does to the references in other tables is left open.
use of_config.Base.{
  ℕ, zero, suc, Text, not, Option, some, List, [], ◌∷◌, ℤ, if◌then◌else◌, ◌==◌, keep,
}
use of_config.Ovs.Db.{
  Uuid, Smap, Bridge, Port, Interface, Qos, Queue, FlowTable, Controller, OpenVswitch, Db,
}

-- ovsrec_<table>_set_<column>
pub data Column : Type 0 where
  bridge_name : Uuid → Text → Column
  bridge_ports : Uuid → List Uuid → Column
  bridge_flow_tables : Uuid → List (ℤ × Uuid) → Column
  bridge_controller : Uuid → List Uuid → Column
  bridge_fail_mode : Uuid → Text → Column
  bridge_other_config : Uuid → Smap → Column
  port_qos : Uuid → Option Uuid → Column
  interface_ofport_request : Uuid → Option ℤ → Column
  interface_type : Uuid → Text → Column
  interface_options : Uuid → Smap → Column
  interface_external_ids : Uuid → Smap → Column
  qos_type : Uuid → Text → Column
  qos_queues : Uuid → List (ℤ × Uuid) → Column
  queue_external_ids : Uuid → Smap → Column
  queue_other_config : Uuid → Smap → Column
  flow_table_name : Uuid → Text → Column
  flow_table_external_ids : Uuid → Smap → Column
  controller_target : Uuid → Text → Column
  controller_local_ip : Uuid → Option Text → Column
  controller_connection_mode : Uuid → Text → Column
  controller_external_ids : Uuid → Smap → Column
  open_vswitch_bridges : Uuid → List Uuid → Column

pub data Table : Type 0 where
  bridge port interface qos queue flow_table controller open_vswitch : Table

-- ovsrec_<table>_set_<column>, ovsrec_<table>_insert and ovsrec_<table>_delete
pub data Call : Type 0 where
  set_column : Column → Call
  insert_row : Table → Call
  delete_row : Table → Uuid → Call

-- The same rows, with one replaced.
module _ {R : Type 0} (uuid : R → Uuid) where
  abbrev pub change : Uuid → (R → R) → List R → List R
  change u f [] = []
  change u f (r ∷ rs) = (if uuid r == u then f r else r) ∷ change u f rs

  abbrev pub without : Uuid → List R → List R
  without u rs = keep (λ r. not (uuid r == u)) rs

abbrev pub insert_at {ℓ} : {A : Type ℓ} → ℕ → A → List A → List A
insert_at zero x xs = x ∷ xs
insert_at (suc n) x [] = x ∷ []
insert_at (suc n) x (y ∷ ys) = y ∷ insert_at n x ys

-- What can be read after a column is set.
module _ (d : Db) where
  abbrev pub change_bridge : Uuid → (Bridge → Bridge) → Db
  change_bridge u f = record d { bridges = change (λ r. r.uuid) u f d.bridges }

  abbrev pub change_port : Uuid → (Port → Port) → Db
  change_port u f = record d { ports = change (λ r. r.uuid) u f d.ports }

  abbrev pub change_interface : Uuid → (Interface → Interface) → Db
  change_interface u f = record d { interfaces = change (λ r. r.uuid) u f d.interfaces }

  abbrev pub change_qos : Uuid → (Qos → Qos) → Db
  change_qos u f = record d { qos = change (λ r. r.uuid) u f d.qos }

  abbrev pub change_queue : Uuid → (Queue → Queue) → Db
  change_queue u f = record d { queues = change (λ r. r.uuid) u f d.queues }

  abbrev pub change_flow_table : Uuid → (FlowTable → FlowTable) → Db
  change_flow_table u f = record d { flow_tables = change (λ r. r.uuid) u f d.flow_tables }

  abbrev pub change_controller : Uuid → (Controller → Controller) → Db
  change_controller u f = record d { controllers = change (λ r. r.uuid) u f d.controllers }

  abbrev pub change_open_vswitch : Uuid → (OpenVswitch → OpenVswitch) → Db
  change_open_vswitch u f = record d { open_vswitch = change (λ r. r.uuid) u f d.open_vswitch }

abbrev pub after_set : Db → Column → Db
after_set d (bridge_name u v) = change_bridge d u (λ r. record r { name = v })
after_set d (bridge_ports u v) = change_bridge d u (λ r. record r { ports = v })
after_set d (bridge_flow_tables u v) = change_bridge d u (λ r. record r { flow_tables = v })
after_set d (bridge_controller u v) = change_bridge d u (λ r. record r { controller = v })
after_set d (bridge_fail_mode u v) = change_bridge d u (λ r. record r { fail_mode = some v })
after_set d (bridge_other_config u v) = change_bridge d u (λ r. record r { other_config = v })
after_set d (port_qos u v) = change_port d u (λ r. record r { qos = v })
after_set d (interface_ofport_request u v) =
    change_interface d u (λ r. record r { ofport_request = v })
after_set d (interface_type u v) = change_interface d u (λ r. record r { type = v })
after_set d (interface_options u v) = change_interface d u (λ r. record r { options = v })
after_set d (interface_external_ids u v) = change_interface d u (λ r. record r { external_ids = v })
after_set d (qos_type u v) = change_qos d u (λ r. record r { type = v })
after_set d (qos_queues u v) = change_qos d u (λ r. record r { queues = v })
after_set d (queue_external_ids u v) = change_queue d u (λ r. record r { external_ids = v })
after_set d (queue_other_config u v) = change_queue d u (λ r. record r { other_config = v })
after_set d (flow_table_name u v) = change_flow_table d u (λ r. record r { name = some v })
after_set d (flow_table_external_ids u v) =
    change_flow_table d u (λ r. record r { external_ids = v })
after_set d (controller_target u v) = change_controller d u (λ r. record r { target = v })
after_set d (controller_local_ip u v) = change_controller d u (λ r. record r { local_ip = v })
after_set d (controller_connection_mode u v) =
    change_controller d u (λ r. record r { connection_mode = some v })
after_set d (controller_external_ids u v) =
    change_controller d u (λ r. record r { external_ids = v })
after_set d (open_vswitch_bridges u v) = change_open_vswitch d u (λ r. record r { bridges = v })
