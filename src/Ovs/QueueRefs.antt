-- ===== src/Ovs/QueueRefs.antt =====
-- Queues of server/ovs-data.c found by their id, and where ports, QoS records and bridges refer to
-- them.
use mathlib.Core.Option
use of_config.Base.{
  ℕ, suc, String, Text, Bool, true, false, Option, none, some, List, [], ◌∷◌, ℤ, find?, text_eq,
}
use of_config.Error.{Result, ok, fault}
use of_config.Error
use of_config.Ovs.Db.{Uuid, Bridge, Port, Qos, Queue, Db, port_at, qos_at, queue_at}
use of_config.Ovs.Ports.{find_bridge}

-- OFC_RESOURCE_ID
abbrev pub resource_id : String
resource_id = "ofc_resource_id"

abbrev pub has_text : Text → Option Text → Bool
has_text x none = false
has_text x (some t) = text_eq x t

-- `rid && xmlStrEqual(resource_id, rid)` for the queue's `resource-id`
abbrev pub has_rid : Text → Queue → Bool
has_rid rid q = has_text rid (q.external_ids resource_id)

unfoldable pub find_queue : Text → Db → Option Queue
find_queue rid d = find? (has_rid rid) d.queues

-- The same of a queue that a QoS record refers to.
abbrev pub ref_has_rid : Text → Option Queue → Result Bool
ref_has_rid rid none = fault
ref_has_rid rid (some q) = ok (has_rid rid q)

-- The first position of the queue among the references.
unfoldable pub queue_index : Db → Text → List (ℤ × Uuid) → Result (Option ℕ)
queue_index d rid [] = ok none
queue_index d rid ((key, u) ∷ rest) = Error.◌>>=◌ (ref_has_rid rid (queue_at u d)) λ hit. elim hit [
  | true ↦ ok (some 0)
  | false ↦ Error.◌>>=◌ (queue_index d rid rest) λ i. ok (Option.map suc i)
]

abbrev pub index_in : Db → Text → Option Qos → Result (Option ℕ)
index_in d rid none = fault
index_in d rid (some q) = queue_index d rid q.queues

abbrev pub queue_index_of_port : Db → Text → Port → Result (Option ℕ)
queue_index_of_port d rid p = elim p.qos [ none ↦ ok none | some u ↦ index_in d rid (qos_at u d) ]

-- The first port whose QoS record refers to the queue, with the position there.
unfoldable pub find_queue_ref : Db → Text → List Port → Result (Option (Port × ℕ))
find_queue_ref d rid [] = ok none
find_queue_ref d rid (p ∷ rest) =
    Error.◌>>=◌ (queue_index_of_port d rid p)
      λ i. elim i [ some n ↦ ok (some (p, n)) | none ↦ find_queue_ref d rid rest ]

unfoldable pub find_queue_port : Db → Text → Result (Option Port)
find_queue_port d rid =
    Error.◌>>=◌ (find_queue_ref d rid d.ports) λ r. ok (Option.map (λ pn. pn.0) r)

-- The first QoS record that refers to the queue, with the position there.
unfoldable pub find_qos_ref : Db → Text → List Qos → Result (Option (Qos × ℕ))
find_qos_ref d rid [] = ok none
find_qos_ref d rid (q ∷ rest) =
    Error.◌>>=◌ (queue_index d rid q.queues)
      λ i. elim i [ some n ↦ ok (some (q, n)) | none ↦ find_qos_ref d rid rest ]

-- The result of `ofc_check_bridge_queue`.
pub data BridgeQueue : Type 0 where
  linked invalid unlinked : BridgeQueue

-- the loop over the bridge's ports
unfoldable pub has_port_named : Db → Text → List Uuid → Result Bool
has_port_named d x [] = ok false
has_port_named d x (u ∷ rest) = elim (port_at u d) [
  | none ↦ fault
  | some p ↦ elim (text_eq p.name x) [ true ↦ ok true | false ↦ has_port_named d x rest ]
]

abbrev pub linked_if : Bool → BridgeQueue
linked_if true = linked
linked_if false = unlinked

abbrev pub check_on_bridge : Db → Option Port → Option Bridge → Result BridgeQueue
check_on_bridge d none b = ok unlinked
check_on_bridge d (some p) none = ok invalid
check_on_bridge d (some p) (some b) =
    Error.◌>>=◌ (has_port_named d p.name b.ports) λ hit. ok (linked_if hit)

abbrev pub check_queue : Db → Text → Text → Option Queue → Result BridgeQueue
check_queue d br_name rid none = ok invalid
check_queue d br_name rid (some q) =
    Error.◌>>=◌ (find_queue_port d rid) λ p. check_on_bridge d p (find_bridge br_name d)

unfoldable pub ofc_check_bridge_queue : Db → Option Text → Option Text → Result BridgeQueue
ofc_check_bridge_queue d none rid = ok invalid
ofc_check_bridge_queue d (some br_name) none = ok invalid
ofc_check_bridge_queue d (some br_name) (some rid) = check_queue d br_name rid (find_queue rid d)
