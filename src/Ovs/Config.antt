-- ===== src/Ovs/Config.antt =====
-- The configuration as server/ovs-data.c prints it: the functions of `ofc_get_config_data` for flow tables,
-- queues, controllers, switches and ports. A text is what `ds_put_format` appends, in order.
pub mod Documents
pub mod Escaped
pub mod Printed
pub mod Ports
use of_config.Base.{
  ◌<◌, ◌==◌, String, Text, codes, Option, none, some, List, [], ◌∷◌, ◌++◌, ℤ, if◌then◌else◌,
  text_eq, decimal_i64,
}
use of_config.Error.{Result, ok, fault, ◌>>=◌}
use of_config.Ovs.Db.{
  Uuid, Smap, Bridge, Port, Queue, FlowTable, Controller, Db, port_at, qos_at, queue_at,
  controller_at,
}
use of_config.Ovs.QueueRefs.{resource_id, find_queue_port}
use of_config.Ovs.Address.{Address, parse_target_to_addr}
use of_config.Ovs.Bridges.{format_dpid}

-- `string.length ? ds_steal_cstr(&string) : NULL`
abbrev pub or_null : Text → Option Text
or_null [] = none
or_null (c ∷ s) = some (c ∷ s)

-- An element with a text, where there is one.
abbrev pub text_element : String → Text → Text
text_element elem t =
    codes "<" ++ (codes elem ++ (codes ">" ++ (t ++ (codes "</" ++ (codes elem ++ codes ">")))))

abbrev pub optional_element : String → Option Text → Text
optional_element elem none = []
optional_element elem (some t) = text_element elem t

unfoldable pub find_and_append_smap_val : Smap → String → String → Text
find_and_append_smap_val s key elem = optional_element elem (s key)

-- What a loop over rows prints.
abbrev pub each_row : {A : Type 0} → (A → Result Text) → List A → Result Text
each_row print [] = ok []
each_row print (r ∷ rest) = print r >>= λ t. each_row print rest >>= λ s. ok (t ++ s)

abbrev pub steal : Result Text → Result (Option Text)
steal r = r >>= λ t. ok (or_null t)

-- The key under which a bridge refers to the flow table; the first bridge that does.
abbrev pub key_of : Uuid → List (ℤ × Uuid) → Option ℤ
key_of u [] = none
key_of u ((k, v) ∷ rest) = let later = key_of u rest in if u == v then some k else later

unfoldable pub find_flowtable_id : Uuid → List Bridge → Option ℤ
find_flowtable_id u [] = none
find_flowtable_id u (b ∷ rest) = elim (key_of u b.flow_tables) [
  | some k ↦ some k
  | none ↦ find_flowtable_id u rest
]

-- A resource id that is NULL or empty is none.
abbrev pub not_empty : Option Text → Option Text
not_empty none = none
not_empty (some []) = none
not_empty (some (c ∷ s)) = some (c ∷ s)

abbrev pub flow_table_text : Option ℤ → FlowTable → Text
flow_table_text none row = []
flow_table_text (some id) row =
    codes "<flow-table><table-id>"
    ++ (decimal_i64 id
        ++ (codes "</table-id>"
            ++ (optional_element "resource-id" (not_empty (row.external_ids resource_id))
                ++ (optional_element "name" row.name ++ codes "</flow-table>"))))

unfoldable pub get_flow_tables_config : Db → Result (Option Text)
get_flow_tables_config d = steal (
    each_row (λ row. ok (flow_table_text (find_flowtable_id row.uuid d.bridges) row)) d.flow_tables)

abbrev pub queue_end : Text → Text
queue_end [] = codes "</queue>"
queue_end (c ∷ s) = codes "<properties>" ++ ((c ∷ s) ++ codes "</properties></queue>")

abbrev pub queue_properties : Smap → Text
queue_properties m =
    find_and_append_smap_val m "min-rate" "min-rate"
    ++ (find_and_append_smap_val m "max-rate" "max-rate"
        ++ (find_and_append_smap_val m "experimenter-id" "experimenter-id"
            ++ find_and_append_smap_val m "experimenter-data" "experimenter-data"))

abbrev pub name_of_port : Option Port → Option Text
name_of_port none = none
name_of_port (some p) = some p.name

abbrev pub queue_with : Text → Queue → Option Port → Text
queue_with rid row port =
    codes "<queue><resource-id>"
    ++ (rid
        ++ (codes "</resource-id>"
            ++ (optional_element "id" (row.external_ids "ofc_id")
                ++ (optional_element "port" (name_of_port port)
                    ++ queue_end (queue_properties row.other_config)))))

abbrev pub queue_text : Db → Option Text → Queue → Result Text
queue_text d none row = ok []
queue_text d (some rid) row = find_queue_port d rid >>= λ port. ok (queue_with rid row port)

unfoldable pub get_queues_config : Db → Result (Option Text)
get_queues_config d =
    steal (each_row (λ row. queue_text d (not_empty (row.external_ids resource_id)) row) d.queues)

-- `%s` with a NULL is undefined.
abbrev pub not_null : Option Text → Result Text
not_null none = fault
not_null (some t) = ok t

abbrev pub controller_text : Text → Text → Address → Option Text → Text
controller_text id address a local_ip =
    codes "<controller><id>"
    ++ (id
        ++ (codes "</id><ip-address>"
            ++ (address
                ++ (codes "</ip-address>"
                    ++ (optional_element "port" a.port
                        ++ (optional_element "local-ip-address" local_ip
                            ++ (optional_element "protocol" a.protocol
                                ++ codes "</controller>")))))))

unfoldable pub get_controller_config : Controller → Result Text
get_controller_config row = parse_target_to_addr (some row.target) >>= λ a.
    not_null (row.external_ids "ofconfig-id") >>= λ id.
    not_null a.address >>= λ address. ok (controller_text id address a row.local_ip)

-- The columns of the rows that only the printers read, and the resource id of the owned certificate.
pub record Columns : Type 0 where
  pub datapath_id : Uuid → Option Text
  pub interfaces : Uuid → List Uuid
  pub admin_state : Uuid → Option Text
  pub own_resid : Option Text

abbrev pub dpid_text : Option Text → Result Text
dpid_text none = ok []
dpid_text (some s) = format_dpid s >>= λ t. ok (text_element "datapath-id" t)

abbrev pub behavior_of : Option Text → Option Text
behavior_of none = none
behavior_of (some m) =
    some (
      if text_eq m (codes "standalone") then codes "failStandaloneMode" else codes "failSecureMode")

abbrev pub at_row : {A : Type 0} → Option A → (A → Result Text) → Result Text
at_row none print = fault
at_row (some r) print = print r

abbrev pub controllers_text : Db → List Uuid → Result Text
controllers_text d [] = ok []
controllers_text d (u ∷ us) =
    each_row (λ v. at_row (controller_at v d) get_controller_config) (u ∷ us) >>= λ t.
    ok (codes "<controllers>" ++ (t ++ codes "</controllers>"))

-- `switch/resources/`
abbrev pub port_link : Port → Result Text
port_link p = ok (text_element "port" p.name)

abbrev pub table_link : ℤ × Uuid → Result Text
table_link (k, u) = ok (text_element "flow-table" (decimal_i64 k))

abbrev pub queue_link : Queue → Result Text
queue_link q = ok (optional_element "queue" (q.external_ids resource_id))

abbrev pub queue_links : Db → Option Uuid → Result Text
queue_links d none = ok []
queue_links d (some u) =
    at_row (qos_at u d) (λ r. each_row (λ kv. at_row (queue_at kv.1 d) queue_link) r.queues)

abbrev pub links_text : Db → Columns → Bridge → Result Text
links_text d c b = each_row (λ u. at_row (port_at u d) port_link) b.ports >>= λ ports.
    each_row table_link b.flow_tables >>= λ tables.
    each_row (λ u. at_row (port_at u d) (λ p. queue_links d p.qos)) b.ports >>= λ queues.
    ok (ports ++ (tables ++ (queues ++ optional_element "certificate" c.own_resid)))

abbrev pub switch_end : Text → Text
switch_end [] = codes "</switch>"
switch_end (c ∷ s) = codes "<resources>" ++ ((c ∷ s) ++ codes "</resources></switch>")

abbrev pub switch_text : Db → Columns → Bridge → Result Text
switch_text d c b = dpid_text (c.datapath_id b.uuid) >>= λ dpid.
    controllers_text d b.controller >>= λ controllers. links_text d c b >>= λ links. ok (
      codes "<switch><id>"
      ++ (b.name
          ++ (codes "</id>"
              ++ (dpid
                  ++ (optional_element "lost-connection-behavior" (behavior_of b.fail_mode)
                      ++ (controllers ++ switch_end links))))))

unfoldable pub get_bridges_config : Db → Columns → Result (Option Text)
get_bridges_config d c = steal (each_row (switch_text d c) d.bridges)
