-- ===== src/Ovs/Bridges/Remove.antt =====
-- Deleting a bridge: `txn_del_bridge` of server/ovs-data.c.
use of_config.Base.{
  ℕ, zero, suc, ◌-◌, ◌==◌, ◌≤◌, Text, Bool, true, false, Option, none, some, List, [], ◌∷◌, length,
  find?, others, All, count_if, length-others, ◌≡◌, ◌≢◌, refl, arith, Option-cases, inl, inr,
  ==_iff,
}
use of_config.Error.{Result, ok, fail, fault}
use of_config.Ovs.Db.{Uuid, OpenVswitch, Db, bridge_at}
use of_config.Ovs.Idl.{open_vswitch_bridges, bridge}
use of_config.Ovs.Interface.{Idl}
use of_config.Ovs.Txn.{Ovsdb, Txn, ◌>>=◌, ◌>>◌, pure, lift, set, delete}
use of_config.Ovs.Arrays.{rebuild, rebuild_fits, rebuild_full, Reads}
use of_config.Ovs.Bridges.{
  names_bridge, names_bridge_surely, switch_not_found, first_row, unlink_bridge, txn_del_bridge,
}

-- Every reference leads to a row.
abbrev pub BridgesThere : Db → List Uuid → Type 0
BridgesThere d us = All (λ u. bridge_at u d ≢ none) us

names_bridge_lem :
    (d : Db) (x : Text) (u : Uuid)
    → bridge_at u d ≢ none
    → names_bridge d x u ≡ ok (names_bridge_surely d x u)
unfolding names_bridge
names_bridge_lem d x u h = ground arith

Reads-names_bridge :
    (d : Db) (x : Text) (us : List Uuid)
    → BridgesThere d us
    → Reads (names_bridge d x) (names_bridge_surely d x) us
Reads-names_bridge d x [] h = tt
Reads-names_bridge d x (u ∷ us) h = (names_bridge_lem d x u h.0, Reads-names_bridge d x us h.1)

none_of_find? : {A : Type 0} (p : A → Bool) (xs : List A) → find? p xs ≡ none → count_if p xs ≡ 0
none_of_find? p [] h = refl
none_of_find? p (x ∷ xs) h = ground (arith, none_of_find? p xs)

module _ ⦃idl : Idl⦄ where
  abbrev pub unlink_and_delete : OpenVswitch → List Uuid → Option Uuid → Txn (Unit {0})
  unlink_and_delete ovs kept none = pure tt
  unlink_and_delete ovs kept (some u) = do set (open_vswitch_bridges ovs.uuid kept); delete bridge u

  -- The outcome by the references of the table Open_vSwitch and the number of the bridges among them
  -- that have the name.
  abbrev pub deleted : OpenVswitch → Text → List Uuid → ℕ → Ovsdb → Result (Unit {0}) × Ovsdb
  deleted ovs x [] zero s = (ok tt, s)
  deleted ovs x (u ∷ us) zero s = (fail (some switch_not_found), s)
  deleted ovs x us (suc zero) s =
      unlink_and_delete ovs (others (names_bridge_surely s.db x) us)
        (find? (names_bridge_surely s.db x) us) s
  deleted ovs x us (suc (suc n)) s = (fault, s)

  unlink_short :
      (ovs : OpenVswitch) (x : Text) (us : List Uuid) (s : Ovsdb)
      → ovs.bridges ≡ us
      → 2 ≤ count_if (names_bridge_surely s.db x) us
      → unlink_bridge ovs
          (find? (names_bridge_surely s.db x) us)
          (some (others (names_bridge_surely s.db x) us))
          s
        ≡ (fault, s)
  unlink_short ovs x us s e h = elim (Option-cases (find? (names_bridge_surely s.db x) us)) [
    | inl missing ↦ absurd (omega (arith, none_of_find? (names_bridge_surely s.db x) us missing))
    | inr (u, found) ↦
        let short : (length (others (names_bridge_surely s.db x) us) == length us - 1) ≡ false =
          ground (arith, length-others (names_bridge_surely s.db x) us) in
        rw (found, e, short) refl
  ]

  unlink_full :
      (ovs : OpenVswitch) (x : Text) (us : List Uuid) (s : Ovsdb)
      → ovs.bridges ≡ us
      → count_if (names_bridge_surely s.db x) us ≡ 1
      → unlink_bridge ovs
          (find? (names_bridge_surely s.db x) us)
          (some (others (names_bridge_surely s.db x) us))
          s
        ≡ deleted ovs x us 1 s
  unlink_full ovs x us s e h = elim (Option-cases (find? (names_bridge_surely s.db x) us)) [
    | inl missing ↦ rw missing refl
    | inr (u, found) ↦
        let full : (length (others (names_bridge_surely s.db x) us) == length us - 1) ≡ true =
          (==_iff _ _).1 (omega (arith, length-others (names_bridge_surely s.db x) us)) in
        rw (found, e, full) refl
  ]

  delete_many :
      (ovs : OpenVswitch) (x : Text) (s : Ovsdb) (us : List Uuid) (count : ℕ)
      → ovs.bridges ≡ us
      → BridgesThere s.db us
      → count_if (names_bridge_surely s.db x) us ≡ count
      → (lift (rebuild (names_bridge s.db x) (length us - 1) us)
            >>= unlink_bridge ovs (find? (names_bridge_surely s.db x) us))
          s
        ≡ deleted ovs x us count s
  unfolding rebuild
  delete_many ovs x s [] zero e h c = refl
  delete_many ovs x s [] (suc n) e h c = absurd (omega arith)
  delete_many ovs x s (u ∷ us) zero e h c =
      rw
        (rebuild_full _ _ (length (u ∷ us) - 1) (u ∷ us) (Reads-names_bridge s.db x (u ∷ us) h)
          (omega (arith, length-others (names_bridge_surely s.db x) (u ∷ us))))
        refl
  delete_many ovs x s (u ∷ us) (suc zero) e h c =
      rw
        (rebuild_fits _ _ (length (u ∷ us) - 1) (u ∷ us) (Reads-names_bridge s.db x (u ∷ us) h)
          (omega (arith, length-others (names_bridge_surely s.db x) (u ∷ us))))
        (unlink_full ovs x (u ∷ us) s e c)
  delete_many ovs x s (u ∷ us) (suc (suc n)) e h c =
      rw
        (rebuild_fits _ _ (length (u ∷ us) - 1) (u ∷ us) (Reads-names_bridge s.db x (u ∷ us) h)
          (omega (arith, length-others (names_bridge_surely s.db x) (u ∷ us))))
        (unlink_short ovs x (u ∷ us) s e (omega arith))

  -- With a first row of the table Open_vSwitch whose references all lead to bridges: a name that none of
  -- them has is an error, unless there is no reference at all, when nothing is done; a name that one has
  -- takes that reference off and deletes the row it led to; and with more of that name the rest of the
  -- new array is handed over without having been written.
  pub txn_del_bridge_lem :
      (br_name : Text) (s : Ovsdb) (ovs : OpenVswitch)
      → first_row s.db.open_vswitch ≡ some ovs
      → BridgesThere s.db ovs.bridges
      → txn_del_bridge (some br_name) s
        ≡ deleted ovs br_name ovs.bridges
            (count_if (names_bridge_surely s.db br_name) ovs.bridges)
            s
  unfolding txn_del_bridge
  txn_del_bridge_lem br_name s ovs first h =
      rw first (delete_many ovs br_name s ovs.bridges _ refl h refl)
