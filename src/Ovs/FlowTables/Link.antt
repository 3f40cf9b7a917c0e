-- ===== src/Ovs/FlowTables/Link.antt =====
-- The keys under which bridges keep their flow tables: `txn_add_bridge_flowtable` and
-- `txn_bridge_insert_flowtable` of server/ovs-data.c.
use of_config.Base.{
  ◌==◌, Text, true, false, Option, none, some, List, [], ◌∷◌, ◌++◌, ℤ, find?, All, All-append,
  All-find?, sscanf_i64, ◌≡◌, refl, Option-cases, inl, inr, find?-passes, text_eq_iff, text_eq,
}
use of_config.Ovs.Db.{Uuid, Bridge, FlowTable, Db, flow_table_at}
use of_config.Ovs.Idl.{bridge_flow_tables}
use of_config.Ovs.Interface.{Idl}
use of_config.Ovs.Rows.{All-change}
use of_config.Ovs.Txn.{Ovsdb}
use of_config.Ovs.Ports.{find_bridge}
use of_config.Ovs.FlowTables.{find_flowtable, has_table_id, append_table, txn_add_bridge_flowtable}

-- The key of an entry is the number that the table's own id spells.
abbrev pub Agrees : List FlowTable → ℤ × Uuid → Type 0
Agrees tables (key, u) =
    (ft : FlowTable) × (t : Text) × (find? (λ r. r.uuid == u) tables ≡ some ft)
    × (ft.external_ids "table_id" ≡ some t)
    × (sscanf_i64 t ≡ some key)

abbrev pub BridgeAgrees : List FlowTable → Bridge → Type 0
BridgeAgrees tables b = All (Agrees tables) b.flow_tables

abbrev pub TableKeysAgree : Db → Type 0
TableKeysAgree d = All (BridgeAgrees d.flow_tables) d.bridges

-- What the search found carries the id that it was asked for.
find_flowtable_id :
    (table_id : Text) (d : Db) (ft : FlowTable)
    → find_flowtable (some table_id) d ≡ some ft
    → ft.external_ids "table_id" ≡ some table_id
unfolding find_flowtable
find_flowtable_id table_id d ft h = elim (Option-cases (ft.external_ids "table_id")) [
  | inl missing ↦
      let hit = find?-passes (has_table_id table_id) d.flow_tables h in
      let bad : false ≡ true = rw missing at hit in cc
  | inr (t, e) ↦
      let hit = find?-passes (has_table_id table_id) d.flow_tables h in
      let same : text_eq table_id t ≡ true = rw e at hit in
      rw (e, (text_eq_iff table_id t).0 same) refl
]

own_table :
    (t : Text) (d : Db) (ft : FlowTable)
    → All (λ r. flow_table_at r.uuid d ≡ some r) d.flow_tables
    → find_flowtable (some t) d ≡ some ft
    → flow_table_at ft.uuid d ≡ some ft
unfolding find_flowtable
own_table t d ft distinct found = All-find? _ _ d.flow_tables distinct found

of_bridge :
    (x : Text) (d : Db) (b : Bridge)
    → TableKeysAgree d
    → find_bridge x d ≡ some b
    → BridgeAgrees d.flow_tables b
unfolding find_bridge
of_bridge x d b h at = All-find? (BridgeAgrees d.flow_tables) _ d.bridges h at

module _ ⦃idl : Idl⦄ where
  append_table-TableKeysAgree :
      (b : Bridge) (ft : FlowTable) (t : Text) (n : ℤ) (s : Ovsdb)
      → sscanf_i64 t ≡ some n
      → TableKeysAgree s.db
      → BridgeAgrees s.db.flow_tables b
      → Agrees s.db.flow_tables (n, ft.uuid)
      → TableKeysAgree (append_table b ft t s).1.db
  append_table-TableKeysAgree b ft t n s number h k new =
      let entry : ℤ × Uuid = (n, ft.uuid) in
      let all = All-append (Agrees s.db.flow_tables) b.flow_tables (entry ∷ []) k (new, tt) in
      rw (number, idl.write-set s.db (bridge_flow_tables b.uuid (b.flow_tables ++ entry ∷ [])))
        (All-change (BridgeAgrees s.db.flow_tables) (λ r. r.uuid) b.uuid _ s.db.bridges (λ r _. all)
          h)

  -- Where each bridge keeps each of its flow tables under the number that the table's id spells, and a
  -- table's UUID leads to that table, this is so after `txn_add_bridge_flowtable` with an id that spells
  -- a number, whether it succeeds or not.
  pub txn_add_bridge_flowtable-TableKeysAgree :
      (br_name : Option Text) (table_id : Text) (n : ℤ) (s : Ovsdb)
      → sscanf_i64 table_id ≡ some n
      → TableKeysAgree s.db
      → All (λ ft. flow_table_at ft.uuid s.db ≡ some ft) s.db.flow_tables
      → TableKeysAgree (txn_add_bridge_flowtable br_name (some table_id) s).1.db
  unfolding txn_add_bridge_flowtable
  txn_add_bridge_flowtable-TableKeysAgree none t n s number h distinct = h
  txn_add_bridge_flowtable-TableKeysAgree (some x) t n s number h distinct =
      elim (Option-cases (find_flowtable (some t) s.db)) [
        | inl no_table ↦ rw no_table h
        | inr (ft, found) ↦ elim (Option-cases (find_bridge x s.db)) [
          | inl no_bridge ↦ rw (found, no_bridge) h
          | inr (b, at) ↦
              let own = own_table t s.db ft distinct found in
              let new : Agrees s.db.flow_tables (n, ft.uuid) =
                (ft, t, own, find_flowtable_id t s.db ft found, number) in
              rw (found, at)
                (append_table-TableKeysAgree b ft t n s number h (of_bridge x s.db b h at) new)
        ]
      ]
