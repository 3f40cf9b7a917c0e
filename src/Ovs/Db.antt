-- ===== src/Ovs/Db.antt =====
-- The rows of OVSDB as server/ovs-data.c sees them: the members that it uses of the structs of
-- OVSDB's generated header. A pointer to a row is the row's UUID.
use of_config.Base.{
  ℕ, String, Text, Option, none, some, List, ℤ, str_eq, if◌then◌else◌, ◌==◌, find?,
}

abbrev pub Uuid : Type 0
Uuid = ℕ

-- OVS's string maps, by what `smap_get` returns.
abbrev pub Smap : Type 0
Smap = String → Option Text

abbrev pub smap_replace : Smap → String → Text → Smap
smap_replace m k v j = if str_eq k j then some v else m j

abbrev pub smap_remove : Smap → String → Smap
smap_remove m k j = if str_eq k j then none else m j

abbrev pub smap_init : Smap
smap_init j = none

pub record Bridge : Type 0 where
  pub uuid : Uuid
  pub name : Text
  pub ports : List Uuid
  pub flow_tables : List (ℤ × Uuid)
  pub controller : List Uuid
  pub fail_mode : Option Text
  pub other_config : Smap

pub record Port : Type 0 where
  pub uuid : Uuid
  pub name : Text
  pub qos : Option Uuid

pub record Interface : Type 0 where
  pub uuid : Uuid
  pub name : Text
  pub type : Text
  pub ofport_request : Option ℤ
  pub options : Smap
  pub external_ids : Smap

pub record Qos : Type 0 where
  pub uuid : Uuid
  pub type : Text
  pub queues : List (ℤ × Uuid)

pub record Queue : Type 0 where
  pub uuid : Uuid
  pub external_ids : Smap
  pub other_config : Smap

pub record FlowTable : Type 0 where
  pub uuid : Uuid
  pub name : Option Text
  pub external_ids : Smap

pub record Controller : Type 0 where
  pub uuid : Uuid
  pub target : Text
  pub local_ip : Option Text
  pub connection_mode : Option Text
  pub external_ids : Smap

pub record OpenVswitch : Type 0 where
  pub uuid : Uuid
  pub bridges : List Uuid

pub record Db : Type 0 where
  pub bridges : List Bridge
  pub ports : List Port
  pub interfaces : List Interface
  pub qos : List Qos
  pub queues : List Queue
  pub flow_tables : List FlowTable
  pub controllers : List Controller
  pub open_vswitch : List OpenVswitch

-- The row that a pointer leads to.
module _ (u : Uuid) where
  abbrev pub bridge_at : Db → Option Bridge
  bridge_at d = find? (λ r. r.uuid == u) d.bridges

  abbrev pub port_at : Db → Option Port
  port_at d = find? (λ r. r.uuid == u) d.ports

  abbrev pub qos_at : Db → Option Qos
  qos_at d = find? (λ r. r.uuid == u) d.qos

  abbrev pub queue_at : Db → Option Queue
  queue_at d = find? (λ r. r.uuid == u) d.queues

  abbrev pub flow_table_at : Db → Option FlowTable
  flow_table_at d = find? (λ r. r.uuid == u) d.flow_tables

  abbrev pub controller_at : Db → Option Controller
  controller_at d = find? (λ r. r.uuid == u) d.controllers

  abbrev pub interface_at : Db → Option Interface
  interface_at d = find? (λ r. r.uuid == u) d.interfaces
