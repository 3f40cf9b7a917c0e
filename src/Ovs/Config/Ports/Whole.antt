-- ===== src/Ovs/Config/Ports/Whole.antt =====
-- The whole configuration that `ofc_get_config_data` of server/ovs-data.c prints is one document.
use mathlib.Core.Option
use of_config.Base.{ℤ, ◌==◌, find?, Text, codes, Option, List, [], ◌∷◌, ◌++◌, map}
use of_config.Error.{Result, ok, ◌>>=◌}
use of_config.Ovs.Db.{Uuid, Bridge, Db}
use of_config.Ovs.QueueRefs.{resource_id}
use of_config.Ovs.Config.{not_empty, Columns}
use of_config.Ovs.Config.Documents.{Document, ◌⊕◌, leaf, filled, render, documents}
use of_config.Ovs.Config.Escaped.{render_xml}
use of_config.Ovs.Config.Printed.{flow_table_doc, queue_of, switch_of}
use of_config.Ovs.Config.Ports.{Devices}
use of_config.Ovs.Config.Ports.Elements.{interfaces_of}

abbrev pub ports_of : Db → Columns → Devices → Result Document
ports_of d c v = documents (λ b. documents (interfaces_of d c v b.name) b.ports) d.bridges

abbrev pub queues_of : Db → Result Document
queues_of d = documents (λ row. queue_of d (not_empty (row.external_ids resource_id)) row) d.queues

-- The bridges' references to flow tables, with their keys.
abbrev references : List Bridge → List (ℤ × Uuid)
references [] = []
references (b ∷ rest) = b.flow_tables ++ references rest

-- The key of the first reference to a flow table.
abbrev pub filed_under : Uuid → List Bridge → Option ℤ
filed_under u bridges = Option.map (λ kv. kv.0) (find? (λ kv. u == kv.1) (references bridges))

abbrev pub tables_of : Db → Result Document
tables_of d =
    documents (λ row. ok (flow_table_doc (filed_under row.uuid d.bridges) row)) d.flow_tables

abbrev pub bridges_of : Db → Columns → Result Document
bridges_of d c = documents (switch_of d c) d.bridges

abbrev concat : List Text → Text
concat [] = []
concat (t ∷ l) = t ++ concat l

-- The contents of `capable-switch`, from those of its parts.
abbrev pub whole : Text → Document → Document → Document → Document → Document → Document → Document
whole id ports queues owned external tables bridges =
    leaf "id" id
    ⊕ (filled "resources" (ports ⊕ (queues ⊕ (owned ⊕ (external ⊕ tables))))
        ⊕ filled "logical-switches" bridges)

abbrev envelope : Document → Text
envelope d =
    codes "<?xml version=\"1.0\"?><capable-switch xmlns=\"urn:onf:config:yang\">"
    ++ (render d ++ codes "</capable-switch>")

-- The contents of `capable-switch` by the rows.
abbrev pub contents : Text → Document → Document → Db → Columns → Devices → Result Document
contents id owned external d c v = ports_of d c v >>= λ ports. queues_of d >>= λ queues.
    tables_of d >>= λ tables.
    bridges_of d c >>= λ bridges. ok (whole id ports queues owned external tables bridges)

-- The XML document with these contents.
abbrev pub xml_document : Document → Text
xml_document d =
    codes "<?xml version=\"1.0\"?><capable-switch xmlns=\"urn:onf:config:yang\">"
    ++ (render_xml d ++ codes "</capable-switch>")
