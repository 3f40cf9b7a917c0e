-- ===== src/Ovs/Queues/Change.antt =====
-- The keys of QoS records: `txn_add_queue_port` of server/ovs-data.c.
use of_config.Base.{
  sym, subst, ◌∙◌, ◌==◌, Text, codes, Option, none, some, List, [], ◌∷◌, ◌++◌, ℤ, find?, All,
  All-append, All-find?, sscanf_i64, ◌≡◌, refl, Option-cases, inl, inr, ap,
}
use of_config.Error.{Result, ok, fault}
use of_config.Ovs.Db.{Uuid, Port, Qos, Queue, Db, queue_at, qos_at}
use of_config.Ovs.Idl.{set_column, insert_row, port_qos, qos_type, qos_queues, qos}
use of_config.Ovs.Interface.{Idl, blank_qos}
use of_config.Ovs.Rows.{All-change, All-insert_at}
use of_config.Ovs.Txn.{Ovsdb, Txn, set, or_raise, ◌>>=◌}
use of_config.Ovs.Ports.{find_port}
use of_config.Ovs.Queues.{link_queue, txn_add_queue_port, no_queue_to_link, bad_queue_id}
use of_config.Ovs.QueueRefs.{find_queue}

-- The key of an entry is the number that the queue's own id spells.
abbrev pub Agrees : List Queue → ℤ × Uuid → Type 0
Agrees queues (key, u) =
    (q : Queue) × (t : Text) × (find? (λ r. r.uuid == u) queues ≡ some q)
    × (q.external_ids "ofc_id" ≡ some t)
    × (sscanf_i64 t ≡ some key)

abbrev pub RowAgrees : List Queue → Qos → Type 0
RowAgrees queues r = All (Agrees queues) r.queues

abbrev pub KeysAgree : Db → Type 0
KeysAgree d = All (RowAgrees d.queues) d.qos

-- A step that ends well was well up to there.
or_raise-ok :
    {A B : Type 0} (o : Option A) (e : _) (k : A → Txn B) (s s' : Ovsdb) {b : B}
    → (or_raise o e >>= k) s ≡ (ok b, s')
    → (a : A) × (o ≡ some a) × (k a s ≡ (ok b, s'))
or_raise-ok none e k s s' h = cc
or_raise-ok (some a) e k s s' h = (a, refl, h)

module _ ⦃idl : Idl⦄ where
  KeysAgree-set_queues :
      (d : Db) (u : Uuid) (entries : List (ℤ × Uuid))
      → KeysAgree d
      → All (Agrees d.queues) entries
      → KeysAgree (idl.write d (set_column (qos_queues u entries)))
  KeysAgree-set_queues d u entries h k =
      rw (idl.write-set d (qos_queues u entries))
        (All-change (RowAgrees d.queues) (λ r. r.uuid) u _ d.qos (λ r _. k) h)

  KeysAgree-set_type :
      (d : Db) (u : Uuid) (t : Text)
      → KeysAgree d
      → KeysAgree (idl.write d (set_column (qos_type u t)))
  KeysAgree-set_type d u t h =
      rw (idl.write-set d (qos_type u t))
        (All-change (RowAgrees d.queues) (λ r. r.uuid) u _ d.qos (λ r k. k) h)

  KeysAgree-set_qos :
      (d : Db) (u : Uuid) (o : Option Uuid)
      → KeysAgree d
      → KeysAgree (idl.write d (set_column (port_qos u o)))
  KeysAgree-set_qos d u o h = rw (idl.write-set d (port_qos u o)) h

  KeysAgree-insert : (d : Db) → KeysAgree d → KeysAgree (idl.write d (insert_row qos))
  KeysAgree-insert d h =
      rw (idl.write-insert d qos)
        (All-insert_at (RowAgrees d.queues) (idl.slot d) (blank_qos (idl.fresh d)) d.qos tt h)

  link_queue-none-KeysAgree :
      (p : Port) (key : ℤ) (q : Queue) (s : Ovsdb)
      → KeysAgree s.db
      → Agrees s.db.queues (key, q.uuid)
      → KeysAgree (link_queue none p key q s).1.db
  link_queue-none-KeysAgree p key q s h new =
      let u = idl.fresh s.db in
      let d1 = idl.write s.db (insert_row qos) in
      let d2 = idl.write d1 (set_column (qos_type u (codes "linux-hfsc"))) in
      let d3 = idl.write d2 (set_column (qos_queues u ((key, q.uuid) ∷ []))) in
      let same1 : d1.queues ≡ s.db.queues = ap (λ d. d.queues) (idl.write-insert s.db qos) in
      let same2 : d2.queues ≡ d1.queues =
        ap (λ d. d.queues) (idl.write-set d1 (qos_type u (codes "linux-hfsc"))) in
      let entry : Agrees d2.queues (key, q.uuid) =
        subst (λ l. Agrees l (key, q.uuid)) (sym (same2 ∙ same1)) new in
      let k2 = KeysAgree-set_type d1 u (codes "linux-hfsc") (KeysAgree-insert s.db h) in
      let k3 = KeysAgree-set_queues d2 u ((key, q.uuid) ∷ []) k2 (entry, tt) in
      KeysAgree-set_qos d3 p.uuid (some u) k3

  link_queue-some-KeysAgree :
      (u : Uuid) (p : Port) (key : ℤ) (q : Queue) (s s' : Ovsdb)
      → KeysAgree s.db
      → Agrees s.db.queues (key, q.uuid)
      → link_queue (some u) p key q s ≡ (ok tt, s')
      → KeysAgree s'.db
  link_queue-some-KeysAgree u p key q s s' h new run = elim (Option-cases (qos_at u s.db)) [
    | inl missing ↦
        let bad : ◌≡◌ {A = Result (Unit {0}) × Ovsdb} (fault, s) (ok tt, s') = rw missing at run in
        cc
    | inr (r, found) ↦
        let old = All-find? (RowAgrees s.db.queues) (λ r. r.uuid == u) s.db.qos h found in
        let entries = All-append (Agrees s.db.queues) r.queues ((key, q.uuid) ∷ []) old (new, tt) in
        let done : set (qos_queues u (r.queues ++ (key, q.uuid) ∷ [])) s ≡ (ok tt, s') =
          rw found at run in
        subst (λ r. KeysAgree r.1.db) done (KeysAgree-set_queues s.db u _ h entries)
  ]

  -- `link_queue` keeps the keys right when the new entry agrees.
  link_queue-KeysAgree :
      (o : Option Uuid) (p : Port) (key : ℤ) (q : Queue) (s s' : Ovsdb)
      → KeysAgree s.db
      → Agrees s.db.queues (key, q.uuid)
      → link_queue o p key q s ≡ (ok tt, s')
      → KeysAgree s'.db
  link_queue-KeysAgree none p key q s s' h new run =
      subst (λ r. KeysAgree r.1.db) run (link_queue-none-KeysAgree p key q s h new)
  link_queue-KeysAgree (some u) p key q s s' h new run =
      link_queue-some-KeysAgree u p key q s s' h new run

  -- Where the key of each entry of each QoS record is the number that the `ofc_id` of the queue it
  -- refers to spells, and a queue's UUID leads to that queue, this is so after a `txn_add_queue_port`
  -- that succeeds.
  pub txn_add_queue_port-KeysAgree :
      (rid port_name : Text) (s s' : Ovsdb)
      → KeysAgree s.db
      → All (λ q. queue_at q.uuid s.db ≡ some q) s.db.queues
      → txn_add_queue_port (some rid) (some port_name) s ≡ (ok tt, s')
      → KeysAgree s'.db
  unfolding txn_add_queue_port find_queue
  txn_add_queue_port-KeysAgree rid port_name s s' h distinct run =
      let (q, found, run1) = or_raise-ok (find_queue rid s.db) no_queue_to_link _ s s' run in
      let (t, spelt, run2) = or_raise-ok (q.external_ids "ofc_id") _ _ s s' run1 in
      let (p, port_found, run3) = or_raise-ok (find_port port_name s.db) _ _ s s' run2 in
      let (key, number, run4) = or_raise-ok (sscanf_i64 t) bad_queue_id _ s s' run3 in
      let own = All-find? _ _ s.db.queues distinct found in
      link_queue-KeysAgree p.qos p key q s s' h (q, t, own, spelt, number) run4
