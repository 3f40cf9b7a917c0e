-- ===== src/Ovs/Config/Printed.antt =====
-- Which documents server/ovs-data.c prints for flow tables, queues, controllers and switches.
use of_config.Base.{
  Text, codes, Option, none, some, List, [], ◌∷◌, ◌++◌, ℤ, decimal_i64, ◌≡◌, refl, ap, ◌∙◌, sym,
  append_assoc, append-nil, Bool, true, false, Bool-cases, inl, inr, text_eq,
}
use of_config.Error.{Result, ok, fault, ◌>>=◌}
use of_config.Ovs.Db.{
  Uuid, Smap, Bridge, FlowTable, Queue, Port, Controller, Db, port_at, qos_at, queue_at,
  controller_at,
}
use of_config.Ovs.Address.{Address, parse_target_to_addr}
use of_config.Ovs.Bridges.{format_dpid}
use of_config.Ovs.QueueRefs.{resource_id, find_queue_port}
use of_config.Ovs.Config.{
  find_and_append_smap_val, not_empty, flow_table_text, queue_end, queue_properties, queue_with,
  name_of_port, queue_text, controller_text, not_null, get_controller_config, at_row, Columns,
  dpid_text, behavior_of, controllers_text, port_link, table_link, queue_link, queue_links,
  links_text, switch_end, switch_text,
}
use of_config.Ovs.Config.Documents.{
  Document, end, ◌⊕◌, leaf, leaf_if, around, filled, filled_text, render, render-append,
  render-leaf, render-leaf_if, render-filled, rendered, documents, after_value, after_document,
  after_printed, each_row-documents,
}

pub ruleset rendering = (render-append, render-leaf_if, render-filled, append_assoc, append-nil)

abbrev pub flow_table_doc : Option ℤ → FlowTable → Document
flow_table_doc none row = end
flow_table_doc (some id) row = around "flow-table" (
    leaf "table-id" (decimal_i64 id)
    ⊕ (leaf_if "resource-id" (not_empty (row.external_ids resource_id)) ⊕ leaf_if "name" row.name))

pub flow_table_text-render :
    (id : Option ℤ) (row : FlowTable) → flow_table_text id row ≡ render (flow_table_doc id row)
unfolding render ◌⊕◌
flow_table_text-render none row = refl
flow_table_text-render (some id) row = simp rendering

abbrev pub properties_doc : Smap → Document
properties_doc m =
    leaf_if "min-rate" (m "min-rate")
    ⊕ (leaf_if "max-rate" (m "max-rate")
        ⊕ (leaf_if "experimenter-id" (m "experimenter-id")
            ⊕ leaf_if "experimenter-data" (m "experimenter-data")))

queue_properties-render : (m : Smap) → queue_properties m ≡ render (properties_doc m)
unfolding find_and_append_smap_val
queue_properties-render m = simp rendering

queue_end_lem : (t : Text) → queue_end t ≡ filled_text "properties" t ++ codes "</queue>"
queue_end_lem [] = refl
queue_end_lem (c ∷ s) = simp append_assoc

abbrev pub queue_doc : Text → Queue → Option Port → Document
queue_doc rid row port = around "queue" (
    leaf "resource-id" rid
    ⊕ (leaf_if "id" (row.external_ids "ofc_id")
        ⊕ (leaf_if "port" (name_of_port port)
            ⊕ filled "properties" (properties_doc row.other_config))))

queue_with-render :
    (rid : Text) (row : Queue) (port : Option Port)
    → queue_with rid row port ≡ render (queue_doc rid row port)
unfolding render ◌⊕◌
queue_with-render rid row port =
    rw (queue_end_lem (queue_properties row.other_config), queue_properties-render row.other_config)
      (simp rendering)

abbrev pub queue_of : Db → Option Text → Queue → Result Document
queue_of d none row = ok end
queue_of d (some rid) row = find_queue_port d rid >>= λ port. ok (queue_doc rid row port)

pub queue_text-rendered :
    (d : Db) (rid : Option Text) (row : Queue)
    → queue_text d rid row ≡ rendered (queue_of d rid row)
unfolding render
queue_text-rendered d none row = refl
queue_text-rendered d (some rid) row =
    after_value (find_queue_port d rid) _ _ λ port. ap ok (queue_with-render rid row port)

abbrev pub controller_doc : Text → Text → Address → Option Text → Document
controller_doc id address a local_ip = around "controller" (
    leaf "id" id
    ⊕ (leaf "ip-address" address
        ⊕ (leaf_if "port" a.port
            ⊕ (leaf_if "local-ip-address" local_ip ⊕ leaf_if "protocol" a.protocol))))

controller_text-render :
    (id address : Text) (a : Address) (local_ip : Option Text)
    → controller_text id address a local_ip ≡ render (controller_doc id address a local_ip)
unfolding render ◌⊕◌
controller_text-render id address a local_ip = simp rendering

abbrev pub controller_of : Controller → Result Document
controller_of row = parse_target_to_addr (some row.target) >>= λ a.
    not_null (row.external_ids "ofconfig-id") >>= λ id.
    not_null a.address >>= λ address. ok (controller_doc id address a row.local_ip)

pub get_controller_config-rendered :
    (row : Controller) → get_controller_config row ≡ rendered (controller_of row)
unfolding get_controller_config
get_controller_config-rendered row = after_value (parse_target_to_addr (some row.target)) _ _ λ a.
    after_value (not_null (row.external_ids "ofconfig-id")) _ _ λ id.
      after_value (not_null a.address) _ _
        λ address. ap ok (controller_text-render id address a row.local_ip)

abbrev pub row_doc : {A : Type 0} → Option A → (A → Result Document) → Result Document
row_doc none doc = fault
row_doc (some r) doc = doc r

pub at_row-rendered :
    {A : Type 0} (print : A → Result Text) (doc : A → Result Document)
    → ((a : A) → print a ≡ rendered (doc a))
    → (r : Option A) → at_row r print ≡ rendered (row_doc r doc)
at_row-rendered print doc h none = refl
at_row-rendered print doc h (some r) = h r

abbrev pub dpid_doc : Option Text → Result Document
dpid_doc none = ok end
dpid_doc (some s) = format_dpid s >>= λ t. ok (leaf "datapath-id" t)

dpid_text-rendered : (s : Option Text) → dpid_text s ≡ rendered (dpid_doc s)
unfolding render
dpid_text-rendered none = refl
dpid_text-rendered (some s) =
    after_value (format_dpid s) _ _ λ t. ap ok (sym (render-leaf "datapath-id" t))

abbrev pub controllers_doc : Db → List Uuid → Result Document
controllers_doc d [] = ok end
controllers_doc d (u ∷ us) =
    documents (λ v. row_doc (controller_at v d) controller_of) (u ∷ us) >>= λ x.
    ok (around "controllers" x)

controllers_text-rendered :
    (d : Db) (l : List Uuid) → controllers_text d l ≡ rendered (controllers_doc d l)
unfolding render
controllers_text-rendered d [] = refl
controllers_text-rendered d (u ∷ us) =
    ap (λ r. r >>= λ t. ok (codes "<controllers>" ++ (t ++ codes "</controllers>")))
      (each_row-documents (λ v. at_row (controller_at v d) get_controller_config)
        (λ v. row_doc (controller_at v d) controller_of)
        (λ v.
          at_row-rendered get_controller_config controller_of get_controller_config-rendered
            (controller_at v d))
        (u ∷ us))
    ∙ after_document (documents (λ v. row_doc (controller_at v d) controller_of) (u ∷ us)) _ _
        (λ x. refl)

abbrev pub port_doc : Port → Result Document
port_doc p = ok (leaf "port" p.name)

abbrev pub table_doc : ℤ × Uuid → Result Document
table_doc (k, u) = ok (leaf "flow-table" (decimal_i64 k))

abbrev pub queue_link_doc : Queue → Result Document
queue_link_doc q = ok (leaf_if "queue" (q.external_ids resource_id))

abbrev pub queue_links_doc : Db → Option Uuid → Result Document
queue_links_doc d none = ok end
queue_links_doc d (some u) =
    row_doc (qos_at u d) (λ r. documents (λ kv. row_doc (queue_at kv.1 d) queue_link_doc) r.queues)

queue_links-rendered : (d : Db) (q : Option Uuid) → queue_links d q ≡ rendered (queue_links_doc d q)
unfolding render
queue_links-rendered d none = refl
queue_links-rendered d (some u) =
    at_row-rendered _ _
      (λ r.
        each_row-documents _ _
          (λ kv.
            at_row-rendered queue_link queue_link_doc
              (λ q. ap ok (sym (render-leaf_if "queue" (q.external_ids resource_id))))
              (queue_at kv.1 d))
          r.queues)
      (qos_at u d)

abbrev pub links_doc : Db → Columns → Bridge → Result Document
links_doc d c b = documents (λ u. row_doc (port_at u d) port_doc) b.ports >>= λ ports.
    documents table_doc b.flow_tables >>= λ tables.
    documents (λ u. row_doc (port_at u d) (λ p. queue_links_doc d p.qos)) b.ports >>= λ queues.
    ok (ports ⊕ (tables ⊕ (queues ⊕ leaf_if "certificate" c.own_resid)))

links_text-rendered :
    (d : Db) (c : Columns) (b : Bridge) → links_text d c b ≡ rendered (links_doc d c b)
links_text-rendered d c b =
    after_printed _ _ _ _
      (each_row-documents _ _
        (λ u.
          at_row-rendered port_link port_doc (λ p. ap ok (sym (render-leaf "port" p.name)))
            (port_at u d))
        b.ports)
      λ ports.
        after_printed _ _ _ _
          (each_row-documents table_link table_doc
            (λ kv. ap ok (sym (render-leaf "flow-table" (decimal_i64 kv.0)))) b.flow_tables)
          λ tables.
            after_printed _ _ _ _
              (each_row-documents _ _
                (λ u. at_row-rendered _ _ (λ p. queue_links-rendered d p.qos) (port_at u d))
                b.ports)
              λ queues. ap ok (sym (simp rendering))

switch_end_lem : (t : Text) → switch_end t ≡ filled_text "resources" t ++ codes "</switch>"
switch_end_lem [] = refl
switch_end_lem (c ∷ s) = simp append_assoc

-- What a switch does without its controllers, by the column `fail_mode`.
abbrev behavior_word : Bool → Text
behavior_word true = codes "failStandaloneMode"
behavior_word false = codes "failSecureMode"

abbrev pub behavior_doc : Option Text → Document
behavior_doc none = end
behavior_doc (some m) =
    leaf "lost-connection-behavior" (behavior_word (text_eq m (codes "standalone")))

behavior_of-behavior_doc :
    (m : Option Text) → leaf_if "lost-connection-behavior" (behavior_of m) ≡ behavior_doc m
behavior_of-behavior_doc none = refl
behavior_of-behavior_doc (some m) = elim (Bool-cases (text_eq m (codes "standalone"))) [
  | inl e ↦ rw e refl
  | inr e ↦ rw e refl
]

abbrev pub switch_of : Db → Columns → Bridge → Result Document
switch_of d c b = dpid_doc (c.datapath_id b.uuid) >>= λ dpid.
    controllers_doc d b.controller >>= λ controllers. links_doc d c b >>= λ links. ok (
      around "switch" (
        leaf "id" b.name
        ⊕ (dpid ⊕ (behavior_doc b.fail_mode ⊕ (controllers ⊕ filled "resources" links)))))

pub switch_text-rendered :
    (d : Db) (c : Columns) (b : Bridge) → switch_text d c b ≡ rendered (switch_of d c b)
unfolding render ◌⊕◌
switch_text-rendered d c b =
    after_printed _ _ _ _ (dpid_text-rendered (c.datapath_id b.uuid)) λ dpid.
      after_printed _ _ _ _ (controllers_text-rendered d b.controller) λ controllers.
        after_printed _ _ _ _ (links_text-rendered d c b) λ links. ap ok (
          rw (switch_end_lem (render links), ← behavior_of-behavior_doc b.fail_mode)
            (simp rendering))
