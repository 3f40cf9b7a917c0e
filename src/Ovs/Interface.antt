-- ===== src/Ovs/Interface.antt =====
-- The OVSDB IDL as an interface: what a call does to the rows, and the laws that the code relies on.
use of_config.Base.{ℕ, none, [], ◌≡◌, ◌≢◌, All}
use of_config.Ovs.Db.{
  Uuid, smap_init, Bridge, Port, Interface, Qos, Queue, FlowTable, Controller, OpenVswitch, Db,
}
use of_config.Ovs.Idl.{
  Column, Table, bridge, port, interface, qos, queue, flow_table, controller, open_vswitch, Call,
  set_column, insert_row, delete_row, without, insert_at, after_set,
}

-- A row with the schema's default columns.
module _ (u : Uuid) where
  abbrev pub blank_bridge : Bridge
  blank_bridge = record {
    uuid = u;
    name = [];
    ports = [];
    flow_tables = [];
    controller = [];
    fail_mode = none;
    other_config = smap_init;
  }

  abbrev pub blank_port : Port
  blank_port = record { uuid = u; name = []; qos = none }

  abbrev pub blank_interface : Interface
  blank_interface = record {
    uuid = u;
    name = [];
    type = [];
    ofport_request = none;
    options = smap_init;
    external_ids = smap_init;
  }

  abbrev pub blank_qos : Qos
  blank_qos = record { uuid = u; type = []; queues = [] }

  abbrev pub blank_queue : Queue
  blank_queue = record { uuid = u; external_ids = smap_init; other_config = smap_init }

  abbrev pub blank_flow_table : FlowTable
  blank_flow_table = record { uuid = u; name = none; external_ids = smap_init }

  abbrev pub blank_controller : Controller
  blank_controller = record {
    uuid = u;
    target = [];
    local_ip = none;
    connection_mode = none;
    external_ids = smap_init;
  }

  abbrev pub blank_open_vswitch : OpenVswitch
  blank_open_vswitch = record { uuid = u; bridges = [] }

-- The new row stands somewhere among the others.
abbrev pub after_insert : Db → Table → ℕ → Uuid → Db
after_insert d bridge k u = record d { bridges = insert_at k (blank_bridge u) d.bridges }
after_insert d port k u = record d { ports = insert_at k (blank_port u) d.ports }
after_insert d interface k u = record d {
  interfaces = insert_at k (blank_interface u) d.interfaces;
}
after_insert d qos k u = record d { qos = insert_at k (blank_qos u) d.qos }
after_insert d queue k u = record d { queues = insert_at k (blank_queue u) d.queues }
after_insert d flow_table k u = record d {
  flow_tables = insert_at k (blank_flow_table u) d.flow_tables;
}
after_insert d controller k u = record d {
  controllers = insert_at k (blank_controller u) d.controllers;
}
after_insert d open_vswitch k u = record d {
  open_vswitch = insert_at k (blank_open_vswitch u) d.open_vswitch;
}

-- No row has this UUID.
pub record IsFresh (u : Uuid) (d : Db) : Type 0 where
  pub bridges : All (λ r. r.uuid ≢ u) d.bridges
  pub ports : All (λ r. r.uuid ≢ u) d.ports
  pub interfaces : All (λ r. r.uuid ≢ u) d.interfaces
  pub qos : All (λ r. r.uuid ≢ u) d.qos
  pub queues : All (λ r. r.uuid ≢ u) d.queues
  pub flow_tables : All (λ r. r.uuid ≢ u) d.flow_tables
  pub controllers : All (λ r. r.uuid ≢ u) d.controllers
  pub open_vswitch : All (λ r. r.uuid ≢ u) d.open_vswitch

pub record Idl : Type 0 where
  pub write : Db → Call → Db
  -- the UUID and the place of a row that is inserted next
  pub fresh : Db → Uuid
  pub slot : Db → ℕ
  pub write-set : (d : Db) (c : Column) → write d (set_column c) ≡ after_set d c
  pub write-insert :
      (d : Db) (t : Table) → write d (insert_row t) ≡ after_insert d t (slot d) (fresh d)
  pub fresh-IsFresh : (d : Db) → IsFresh (fresh d) d
  pub delete_bridges :
      (d : Db) (u : Uuid)
      → (write d (delete_row bridge u)).bridges ≡ without (λ r. r.uuid) u d.bridges
  pub delete_ports :
      (d : Db) (u : Uuid) → (write d (delete_row port u)).ports ≡ without (λ r. r.uuid) u d.ports
  pub delete_interfaces :
      (d : Db) (u : Uuid)
      → (write d (delete_row interface u)).interfaces ≡ without (λ r. r.uuid) u d.interfaces
  pub delete_qos :
      (d : Db) (u : Uuid) → (write d (delete_row qos u)).qos ≡ without (λ r. r.uuid) u d.qos
  pub delete_queues :
      (d : Db) (u : Uuid) → (write d (delete_row queue u)).queues ≡ without (λ r. r.uuid) u d.queues
  pub delete_flow_tables :
      (d : Db) (u : Uuid)
      → (write d (delete_row flow_table u)).flow_tables ≡ without (λ r. r.uuid) u d.flow_tables
  pub delete_controllers :
      (d : Db) (u : Uuid)
      → (write d (delete_row controller u)).controllers ≡ without (λ r. r.uuid) u d.controllers
