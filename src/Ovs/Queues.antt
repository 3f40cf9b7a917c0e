-- ===== src/Ovs/Queues.antt =====
-- Queues of server/ovs-data.c and their place in the QoS record of a port.
pub mod Change
use mathlib.Core.Option
use of_config.Base.{
  ℕ, zero, suc, ◌==◌, String, Text, codes, Bool, true, false, Option, none, some, List, [], ◌∷◌,
  ◌++◌, ℤ, length, sscanf_i64, if◌then◌else◌,
}
use of_config.Error.{NcErr, bad_element_msg, failed_msg}
use of_config.Error
use of_config.Xml.{Node, name, named, children, is_element, child_content}
use of_config.Ovs.Db.{Uuid, smap_replace, smap_remove, Port, Qos, Queue, Db, qos_at, queue_at}
use of_config.Ovs.Idl.{
  port_qos, qos_type, qos_queues, queue_external_ids, queue_other_config, qos, queue,
}
use of_config.Ovs.Interface.{Idl}
use of_config.Ovs.Txn.{
  Txn, ◌>>=◌, ◌>>◌, pure, raise, crash, gets, deref, or_raise, lift, invalid_input, set, insert,
  delete,
}
use of_config.Ovs.QueueRefs.{resource_id, find_queue, find_queue_ref, find_queue_port, find_qos_ref}
use of_config.Ovs.Ports.{find_port}

abbrev pub remove_nth : ℕ → List (ℤ × Uuid) → List (ℤ × Uuid)
remove_nth i [] = []
remove_nth zero (x ∷ xs) = xs
remove_nth (suc i) (x ∷ xs) = x ∷ remove_nth i xs

abbrev pub set_key : ℕ → ℤ → List (ℤ × Uuid) → List (ℤ × Uuid)
set_key i k [] = []
set_key zero k ((_, u) ∷ xs) = (k, u) ∷ xs
set_key (suc i) k (x ∷ xs) = x ∷ set_key i k xs

abbrev pub bad_queue_id : NcErr
bad_queue_id = bad_element_msg "id" "Invalid queue's id value."

abbrev pub no_queue_to_link : NcErr
no_queue_to_link = failed_msg "Queue to link with port not found."

-- What `txn_add_queue` reads from the children of the element.
pub record QueueNode : Type 0 where
  pub rid : Option Text
  pub id : Option Text
  pub port_name : Option Text
  pub prop : Option Node

abbrev pub read_child : QueueNode → Node → QueueNode
read_child q n =
    if named n "resource-id"
    then record q { rid = child_content n }
    else if named n "id"
    then record q { id = child_content n }
    else if named n "port"
    then record q { port_name = child_content n }
    else if named n "properties"
    then record q { prop = some n }
    else q

unfoldable pub read_queue : QueueNode → List Node → QueueNode
read_queue q [] = q
read_queue q (n ∷ rest) = read_queue (if is_element n then read_child q n else q) rest

abbrev pub no_fields : QueueNode
no_fields = record { rid = none; id = none; port_name = none; prop = none }

abbrev pub missing_queue_key : NcErr
missing_queue_key = bad_element_msg "queue" "The list element misses key."

abbrev pub missing_queue_id : NcErr
missing_queue_id = bad_element_msg "queue" "Mandatory gueue id is missing."

module _ ⦃idl : Idl⦄ where
  -- the new or enlarged QoS record
  abbrev pub link_queue : Option Uuid → Port → ℤ → Queue → Txn (Unit {0})
  link_queue none p qid q = do
    u ← insert qos
    set (qos_type u (codes "linux-hfsc"))
    set (qos_queues u ((qid, q.uuid) ∷ []))
    set (port_qos p.uuid (some u))
  link_queue (some u) p qid q = do
    found ← gets (qos_at u)
    r ← deref found
    set (qos_queues u (r.queues ++ (qid, q.uuid) ∷ []))

  unfoldable pub txn_add_queue_port : Option Text → Option Text → Txn (Unit {0})
  txn_add_queue_port none port_name = raise invalid_input
  txn_add_queue_port (some rid) none = raise invalid_input
  txn_add_queue_port (some rid) (some port_name) = do
    found ← gets (find_queue rid)
    q ← or_raise found no_queue_to_link
    qid_s ←
        or_raise (q.external_ids "ofc_id")
          (failed_msg "Internal inconsistency of the queue records.")
    found_port ← gets (find_port port_name)
    p ← or_raise found_port (failed_msg "Port to link with queue not found.")
    qid ← or_raise (sscanf_i64 qid_s) bad_queue_id
    link_queue p.qos p qid q

  abbrev pub update_key : ℤ → Option (Qos × ℕ) → Txn (Unit {0})
  update_key qid none = pure tt
  update_key qid (some (q, i)) = set (qos_queues q.uuid (set_key i qid q.queues))

  unfoldable pub txn_mod_queue_id : Option Text → Option Text → Txn (Unit {0})
  txn_mod_queue_id none qid_s = raise invalid_input
  txn_mod_queue_id (some rid) none = raise invalid_input
  txn_mod_queue_id (some rid) (some qid_s) = do
    qid ← or_raise (sscanf_i64 qid_s) bad_queue_id
    found ← gets (find_queue rid)
    q ← or_raise found no_queue_to_link
    d ← gets (λ d. d)
    ref ← lift (find_qos_ref d rid d.qos)
    update_key qid ref
    set (queue_external_ids q.uuid (smap_replace q.external_ids "ofc_id" qid_s))

  -- whether the whole record was deleted
  unfoldable pub txn_del_qos_queue : Qos → ℕ → Txn Bool
  txn_del_qos_queue q i =
      if length q.queues == 1
      then (do delete qos q.uuid; pure true)
      else (do set (qos_queues q.uuid (remove_nth i q.queues)); pure false)

  abbrev pub unlink_queue : Option (Port × ℕ) → Option Qos → Txn (Unit {0})
  unlink_queue none q = raise invalid_input
  unlink_queue (some (p, i)) none = crash
  unlink_queue (some (p, i)) (some q) = do
    gone ← txn_del_qos_queue q i
    if gone then set (port_qos p.uuid none) else pure tt

  abbrev pub qos_of_ref : Db → Option (Port × ℕ) → Option Qos
  qos_of_ref d none = none
  qos_of_ref d (some (p, i)) = elim p.qos [ none ↦ none | some u ↦ qos_at u d ]

  unfoldable pub txn_del_queue_port : Option Text → Txn (Unit {0})
  txn_del_queue_port none = raise invalid_input
  txn_del_queue_port (some rid) = do
    d ← gets (λ d. d)
    ref ← lift (find_queue_ref d rid d.ports)
    unlink_queue ref (qos_of_ref d ref)

  abbrev pub drop_from_qos : Option (Qos × ℕ) → Txn (Unit {0})
  drop_from_qos none = pure tt
  drop_from_qos (some (q, i)) = do gone ← txn_del_qos_queue q i; pure tt

  abbrev pub unlink_for_delete : Text → Option Port → Txn (Unit {0})
  unlink_for_delete rid (some p) = txn_del_queue_port (some rid)
  unlink_for_delete rid none = do
    d ← gets (λ d. d)
    ref ← lift (find_qos_ref d rid d.qos)
    drop_from_qos ref

  unfoldable pub txn_del_queue : Option Text → Txn (Unit {0})
  txn_del_queue none = raise invalid_input
  txn_del_queue (some rid) = do
    d ← gets (λ d. d)
    p ← lift (find_queue_port d rid)
    unlink_for_delete rid p
    found ← gets (find_queue rid)
    q ← or_raise found (bad_element_msg "resource-id" "Queue does not exist in OVSDB")
    delete queue q.uuid

  abbrev pub set_option : Queue → String → Option Node → Txn (Unit {0})
  set_option q option none = set (queue_other_config q.uuid (smap_remove q.other_config option))
  set_option q option (some edit) = do
    value ← or_raise (child_content edit) (failed_msg "Missing value of the queue property")
    set (queue_other_config q.uuid (smap_replace q.other_config option value))

  unfoldable pub txn_mod_queue_options : Option Text → Option String → Option Node → Txn (Unit {0})
  txn_mod_queue_options none option edit = raise invalid_input
  txn_mod_queue_options (some rid) none edit = raise invalid_input
  txn_mod_queue_options (some rid) (some option) edit = do
    found ← gets (find_queue rid)
    q ← or_raise found (failed_msg "Queue to set properties not found")
    set_option q option edit

  -- the loop over the children of `properties`
  unfoldable pub add_options : Text → List Node → Txn (Unit {0})
  add_options rid [] = pure tt
  add_options rid (n ∷ rest) = do
    txn_mod_queue_options (some rid) (some (name n)) (some n)
    add_options rid rest

  abbrev pub add_port_if : Text → Option Text → Txn (Unit {0})
  add_port_if rid none = pure tt
  add_port_if rid (some port_name) = txn_add_queue_port (some rid) (some port_name)

  abbrev pub options_of : Option Node → List Node
  options_of none = []
  options_of (some n) = children n

  abbrev pub create_queue : QueueNode → Option Text → Option Text → Txn (Unit {0})
  create_queue f none id = raise missing_queue_key
  create_queue f (some rid) none = raise missing_queue_id
  create_queue f (some rid) (some id) = do
    u ← insert queue
    fresh ← gets (queue_at u)
    q ← deref fresh
    set (queue_external_ids u (smap_replace q.external_ids resource_id rid))
    txn_mod_queue_id (some rid) (some id)
    add_port_if rid f.port_name
    add_options rid (options_of f.prop)
    now ← gets (queue_at u)
    q ← deref now
    set (queue_other_config u q.other_config)

  unfoldable pub txn_add_queue : Option Node → Txn (Unit {0})
  txn_add_queue none = raise invalid_input
  txn_add_queue (some node) =
      let f = read_queue no_fields (children node) in create_queue f f.rid f.id
