-- ===== src/Tests/Config.antt =====
-- A switch with a port, a flow table and a queue, as `ofc_get_config_data` of server/ovs-data.c prints it.
use of_config.Base.{codes, true, false, none, some, [], ◌∷◌, pos}
use of_config.Ovs.Db.{
  Bridge, Port, Interface, Qos, Queue, FlowTable, Controller, Db, smap_init, smap_replace,
}
use of_config.Ovs.Config.{Columns}
use of_config.Ovs.Config.Ports.{Devices}

abbrev switch : Bridge
switch = record {
  uuid = 1;
  name = codes "br0";
  ports = 10 ∷ [];
  flow_tables = (pos 3, 20) ∷ [];
  controller = 40 ∷ [];
  fail_mode = some (codes "secure");
  other_config = smap_init;
}

abbrev port : Port
port = record { uuid = 10; name = codes "p1"; qos = some 50 }

abbrev interface : Interface
interface = record {
  uuid = 60;
  name = codes "p1";
  type = [];
  ofport_request = some (pos 7);
  options = smap_init;
  external_ids = smap_init;
}

abbrev qos : Qos
qos = record { uuid = 50; type = codes "linux-htb"; queues = (pos 1, 30) ∷ [] }

abbrev queue : Queue
queue = record {
  uuid = 30;
  external_ids = smap_replace smap_init "ofc_resource_id" (codes "q1");
  other_config = smap_replace smap_init "min-rate" (codes "10");
}

abbrev table : FlowTable
table = record { uuid = 20; name = some (codes "t"); external_ids = smap_init }

abbrev controller : Controller
controller = record {
  uuid = 40;
  target = codes "tcp:10.0.0.1:6633";
  local_ip = none;
  connection_mode = none;
  external_ids = smap_replace smap_init "ofconfig-id" (codes "c1");
}

abbrev db : Db
db = record {
  bridges = switch ∷ [];
  ports = port ∷ [];
  interfaces = interface ∷ [];
  qos = qos ∷ [];
  queues = queue ∷ [];
  flow_tables = table ∷ [];
  controllers = controller ∷ [];
  open_vswitch = [];
}

abbrev columns : Columns
columns = record {
  datapath_id = λ u. some (codes "0011223344556677");
  interfaces = λ u. 60 ∷ [];
  admin_state = λ u. some (codes "up");
  own_resid = none;
}

abbrev devices : Devices
devices = record { of_port = λ b n. none; is_system = λ n. true; advertising = λ n m. false }
