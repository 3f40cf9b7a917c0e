-- ===== src/Tests/Idl.antt =====
-- An IDL in which a new row comes first, with a UUID above all others, and a deletion takes one row.
use of_config.Base.{ℕ, ◌+◌, ◌<◌, List, [], ◌∷◌, All, ◌≢◌, refl, arith}
use of_config.Ovs.Db.{Uuid, Db}
use of_config.Ovs.Idl.{
  Call, set_column, insert_row, delete_row, Table, bridge, port, interface, qos, queue, flow_table,
  controller, open_vswitch, without, after_set,
}
use of_config.Ovs.Interface.{Idl, IsFresh, after_insert}

module _ {R : Type 0} (uuid : R → Uuid) where
  abbrev pub total : List R → ℕ
  total [] = 0
  total (r ∷ rs) = uuid r + total rs

  All-ne_above : (rs : List R) (n : ℕ) → total rs < n → All (λ r. uuid r ≢ n) rs
  All-ne_above [] n h = tt
  All-ne_above (r ∷ rs) n h = ((λ e. omega arith), All-ne_above rs n (omega arith))

abbrev pub above_all : Db → Uuid
above_all d =
    1
    + total (λ r. r.uuid) d.bridges
    + total (λ r. r.uuid) d.ports
    + total (λ r. r.uuid) d.interfaces
    + total (λ r. r.uuid) d.qos
    + total (λ r. r.uuid) d.queues
    + total (λ r. r.uuid) d.flow_tables
    + total (λ r. r.uuid) d.controllers
    + total (λ r. r.uuid) d.open_vswitch

pub above_all-IsFresh : (d : Db) → IsFresh (above_all d) d
above_all-IsFresh d = record {
  bridges = All-ne_above (λ r. r.uuid) d.bridges _ (omega arith);
  ports = All-ne_above (λ r. r.uuid) d.ports _ (omega arith);
  interfaces = All-ne_above (λ r. r.uuid) d.interfaces _ (omega arith);
  qos = All-ne_above (λ r. r.uuid) d.qos _ (omega arith);
  queues = All-ne_above (λ r. r.uuid) d.queues _ (omega arith);
  flow_tables = All-ne_above (λ r. r.uuid) d.flow_tables _ (omega arith);
  controllers = All-ne_above (λ r. r.uuid) d.controllers _ (omega arith);
  open_vswitch = All-ne_above (λ r. r.uuid) d.open_vswitch _ (omega arith);
}

abbrev pub delete_from : Db → Table → Uuid → Db
delete_from d bridge u = record d { bridges = without (λ r. r.uuid) u d.bridges }
delete_from d port u = record d { ports = without (λ r. r.uuid) u d.ports }
delete_from d interface u = record d { interfaces = without (λ r. r.uuid) u d.interfaces }
delete_from d qos u = record d { qos = without (λ r. r.uuid) u d.qos }
delete_from d queue u = record d { queues = without (λ r. r.uuid) u d.queues }
delete_from d flow_table u = record d { flow_tables = without (λ r. r.uuid) u d.flow_tables }
delete_from d controller u = record d { controllers = without (λ r. r.uuid) u d.controllers }
delete_from d open_vswitch u = record d { open_vswitch = without (λ r. r.uuid) u d.open_vswitch }

abbrev pub write_call : Db → Call → Db
write_call d (set_column c) = after_set d c
write_call d (insert_row t) = after_insert d t 0 (above_all d)
write_call d (delete_row t u) = delete_from d t u

abbrev pub sample_idl : Idl
sample_idl = record {
  write = write_call;
  fresh = above_all;
  slot = λ d. 0;
  write-set = λ d c. refl;
  write-insert = λ d t. refl;
  fresh-IsFresh = above_all-IsFresh;
  delete_bridges = λ d u. refl;
  delete_ports = λ d u. refl;
  delete_interfaces = λ d u. refl;
  delete_qos = λ d u. refl;
  delete_queues = λ d u. refl;
  delete_flow_tables = λ d u. refl;
  delete_controllers = λ d u. refl;
}
