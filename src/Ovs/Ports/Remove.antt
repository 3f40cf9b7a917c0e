-- ===== src/Ovs/Ports/Remove.antt =====
-- Taking a port off a bridge: `txn_del_bridge_port` of server/ovs-data.c.
use of_config.Base.{
  ℕ, zero, suc, ◌-◌, ◌==◌, ◌<◌, Text, Bool, true, false, none, some, List, [], ◌∷◌, length, others,
  All, count_if, length-others, text_eq, ◌≡◌, ◌≢◌, refl, arith, Bool-cases, inl, inr, ==_iff,
}
use of_config.Error.{Result, ok, fault}
use of_config.Ovs.Db.{Uuid, Bridge, Db, port_at}
use of_config.Ovs.Idl.{bridge_ports}
use of_config.Ovs.Interface.{Idl}
use of_config.Ovs.Txn.{Ovsdb, set, lift, ◌>>=◌}
use of_config.Ovs.Arrays.{rebuild, rebuild_fits, rebuild_full, Reads}
use of_config.Ovs.Ports.{find_bridge, names_port, remove_port, txn_del_bridge_port, store_ports}

-- Whether the port that the reference leads to has the name.
abbrev pub is_named : Db → Text → Uuid → Bool
is_named d x u = elim (port_at u d) [ none ↦ false | some p ↦ text_eq x p.name ]

-- Every reference leads to a row.
abbrev pub AllThere : Db → List Uuid → Type 0
AllThere d us = All (λ u. port_at u d ≢ none) us

names_port_lem :
    (d : Db) (x : Text) (u : Uuid) → port_at u d ≢ none → names_port d x u ≡ ok (is_named d x u)
unfolding names_port
names_port_lem d x u h = ground arith

Reads-names :
    (d : Db) (x : Text) (us : List Uuid) → AllThere d us → Reads (names_port d x) (is_named d x) us
Reads-names d x [] h = tt
Reads-names d x (u ∷ us) h = (names_port_lem d x u h.0, Reads-names d x us h.1)

module _ ⦃idl : Idl⦄ where
  -- The outcome by the number of the bridge's ports that have the name.
  abbrev pub removed : Bridge → Text → Ovsdb → ℕ → Result (Unit {0}) × Ovsdb
  removed b x s zero = (ok tt, s)
  removed b x s (suc zero) = set (bridge_ports b.uuid (others (is_named s.db x) b.ports)) s
  removed b x s (suc (suc n)) = (fault, s)

  remove_many :
      (b : Bridge) (x : Text) (s : Ovsdb) (us : List Uuid) (room count : ℕ)
      → b.ports ≡ us
      → length us ≡ suc room
      → AllThere s.db us
      → count_if (is_named s.db x) us ≡ count
      → (lift (rebuild (names_port s.db x) room us) >>= store_ports b) s ≡ removed b x s count
  remove_many b x s us room zero e l h c =
      rw
        (rebuild_full _ _ room us (Reads-names s.db x us h)
          (omega (arith, length-others (is_named s.db x) us)))
        refl
  remove_many b x s us room (suc zero) e l h c =
      let copied : length (others (is_named s.db x) us) ≡ room =
        omega (arith, length-others (is_named s.db x) us) in
      let full : (room == length us - 1) ≡ true = (==_iff _ _).1 (omega arith) in
      rw
        (
          rebuild_fits _ _ room us (Reads-names s.db x us h) (omega (arith, copied)),
          e,
          copied,
          full,
        )
        refl
  remove_many b x s us room (suc (suc n)) e l h c =
      let copied : length (others (is_named s.db x) us) < room =
        omega (arith, length-others (is_named s.db x) us) in
      let short : (length (others (is_named s.db x) us) == length us - 1) ≡ false = ground arith in
      rw (rebuild_fits _ _ room us (Reads-names s.db x us h) (omega (arith, copied)), e, short) refl

  remove_port_lem :
      (b : Bridge) (x : Text) (s : Ovsdb) (us : List Uuid)
      → b.ports ≡ us
      → AllThere s.db us
      → remove_port b x us s ≡ removed b x s (count_if (is_named s.db x) us)
  remove_port_lem b x s [] e h = refl
  remove_port_lem b x s (u ∷ []) e h = elim (Bool-cases (is_named s.db x u)) [
    | inl hit ↦ rw (names_port_lem s.db x u h.0, hit, e, hit) refl
    | inr miss ↦ rw (names_port_lem s.db x u h.0, miss) refl
  ]
  remove_port_lem b x s (u ∷ v ∷ us) e h =
      remove_many b x s (u ∷ v ∷ us) (length (v ∷ us)) _ e refl h refl

  -- From a bridge that exists and whose port references all lead to rows: with no port of that name
  -- nothing changes, with one the list is stored without it, and with more the rest of the new array
  -- is handed over without having been written. Nothing else changes.
  pub txn_del_bridge_port_lem :
      (br_name port_name : Text) (s : Ovsdb) (b : Bridge)
      → find_bridge br_name s.db ≡ some b
      → AllThere s.db b.ports
      → txn_del_bridge_port (some br_name) (some port_name) s
        ≡ removed b port_name s (count_if (is_named s.db port_name) b.ports)
  unfolding txn_del_bridge_port
  txn_del_bridge_port_lem br_name port_name s b found h =
      rw found (remove_port_lem b port_name s b.ports refl h)
