-- ===== src/Tests/Rows.antt =====
-- A small database for the tests.
use of_config.Base.{codes, none, [], ◌∷◌}
use of_config.Ovs.Db.{smap_init, smap_replace, Bridge, Port, Queue, FlowTable, Db}
use of_config.Ovs.Txn.{Ovsdb}

abbrev pub br0 : Bridge
br0 = record {
  uuid = 1;
  name = codes "br0";
  ports = 10 ∷ [];
  flow_tables = [];
  controller = [];
  fail_mode = none;
  other_config = smap_init;
}

abbrev pub p1 : Port
p1 = record { uuid = 10; name = codes "p1"; qos = none }

abbrev pub p2 : Port
p2 = record { uuid = 11; name = codes "p2"; qos = none }

abbrev pub q1 : Queue
q1 = record {
  uuid = 30;
  external_ids =
      smap_replace (smap_replace smap_init "ofc_id" (codes "5")) "ofc_resource_id" (codes "q1");
  other_config = smap_init;
}

abbrev pub ft3 : FlowTable
ft3 = record {
  uuid = 20;
  name = none;
  external_ids = smap_replace smap_init "table_id" (codes "3");
}

abbrev pub rows : Db
rows = record {
  bridges = br0 ∷ [];
  ports = p1 ∷ p2 ∷ [];
  interfaces = [];
  qos = [];
  queues = q1 ∷ [];
  flow_tables = ft3 ∷ [];
  controllers = [];
  open_vswitch = [];
}

abbrev pub start : Ovsdb
start = record { db = rows; issued = [] }
