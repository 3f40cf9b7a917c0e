-- ===== src/Ovs/Bridges/Datapath.antt =====
-- The datapath id of a bridge: `txn_mod_bridge_datapath` and the part of `get_bridges_config` of
-- server/ovs-data.c that prints it.
use of_config.Base.{
  ◌+◌, ◌%◌, ℕ, zero, suc, ◌==◌, Text, true, false, not, some, [], ◌∷◌, length, keep, All, ◌≡◌, refl,
  arith, Bool-cases, inl, inr, ap, ◌∙◌,
}
use of_config.Error.{Result, ok, fault}
use of_config.Ovs.Db.{Bridge, smap_replace}
use of_config.Ovs.Idl.{bridge_other_config}
use of_config.Ovs.Interface.{Idl}
use of_config.Ovs.Txn.{Ovsdb, set}
use of_config.Ovs.Ports.{find_bridge}
use of_config.Ovs.Bridges.{txn_mod_bridge_datapath, cons_ok, fill_dp, print_dpid, format_dpid}

abbrev pub digits_of : Text → Text
digits_of s = keep (λ c. not (c == b':')) s

fill_dp_colon : (n : ℕ) (s : Text) → fill_dp n (b':' ∷ s) ≡ fill_dp n s
unfolding fill_dp
fill_dp_colon zero s = refl
fill_dp_colon (suc n) s = refl

-- The outcome of the loop: what is left without the colons, where that fills the array.
abbrev pub filled : ℕ → Text → Result Text
filled zero [] = ok []
filled zero (c ∷ s) = fault
filled (suc n) [] = fault
filled (suc n) (c ∷ s) = cons_ok c (filled n s)

fill_dp-filled : (n : ℕ) (value : Text) → fill_dp n value ≡ filled n (digits_of value)
unfolding fill_dp
fill_dp-filled zero [] = refl
fill_dp-filled (suc n) [] = refl
fill_dp-filled zero (c ∷ s) = elim (Bool-cases (c == b':')) [
  | inl colon ↦ rw (fill_dp, colon) (fill_dp-filled zero s)
  | inr other ↦ rw (fill_dp, other) refl
]
fill_dp-filled (suc n) (c ∷ s) = elim (Bool-cases (c == b':')) [
  | inl colon ↦ rw (fill_dp, colon) (fill_dp-filled (suc n) s)
  | inr other ↦ rw (fill_dp, other) (ap (cons_ok c) (fill_dp-filled n s))
]

filled_full : (n : ℕ) (s : Text) → length s ≡ n → filled n s ≡ ok s
filled_full zero [] h = refl
filled_full zero (c ∷ s) h = absurd (omega arith)
filled_full (suc n) [] h = absurd (omega arith)
filled_full (suc n) (c ∷ s) h = rw (filled_full n s (omega arith)) refl

-- Sets of two digits with a colon between them.
abbrev pub pairs : Text → Text
pairs (a ∷ b ∷ c ∷ s) = a ∷ b ∷ b':' ∷ pairs (c ∷ s)
pairs s = s

abbrev pub NoColon : Text → Type 0
NoColon s = All (λ c. (c == b':') ≡ false) s

digits_of-pairs : (s : Text) → NoColon s → digits_of (pairs s) ≡ s
digits_of-pairs [] h = refl
digits_of-pairs (a ∷ []) h = rw h.0 refl
digits_of-pairs (a ∷ b ∷ []) h = rw (h.0, h.1.0) refl
digits_of-pairs (a ∷ b ∷ c ∷ s) h = rw (h.0, h.1.0, digits_of-pairs (c ∷ s) h.1.1) refl

abbrev pub width : ℕ → ℕ
width zero = 2
width (suc k) = suc (suc (suc (width k)))

print_dpid_two :
    (n j a b : ℕ) (s : Text)
    → j % 3 ≡ 1
    → print_dpid (suc (suc n)) j (a ∷ b ∷ s) ≡ cons_ok a (cons_ok b (print_dpid n (suc (suc j)) s))
unfolding print_dpid
print_dpid_two n j a b s h =
    let first : (j % 3 == 0) ≡ false = ground arith in
    let second : (suc j % 3 == 0) ≡ false = ground arith in rw (first, second) refl

print_dpid_colon :
    (n j : ℕ) (s : Text)
    → j % 3 ≡ 0
    → print_dpid (suc n) j s ≡ cons_ok b':' (print_dpid n (suc j) s)
unfolding print_dpid
print_dpid_colon n j s h = let colon : (j % 3 == 0) ≡ true = ground arith in rw colon refl

print_dpid_nil : (j : ℕ) (s : Text) → print_dpid 0 j s ≡ ok []
unfolding print_dpid
print_dpid_nil j s = refl

print_dpid-pairs :
    (k j : ℕ) (s : Text)
    → j % 3 ≡ 1
    → length s ≡ k + k + 2
    → print_dpid (width k) j s ≡ ok (pairs s) × length (pairs s) ≡ width k
print_dpid-pairs zero j (a ∷ b ∷ []) at h =
    (rw (print_dpid_two 0 j a b [] at, print_dpid_nil) refl, refl)
print_dpid-pairs (suc k) j (a ∷ b ∷ c ∷ s) at h =
    let (rest, size) = print_dpid-pairs k (suc (suc (suc j))) (c ∷ s) (omega arith) (omega arith) in
    (
      rw
          (
            print_dpid_two (suc (width k)) j a b (c ∷ s) at,
            print_dpid_colon (width k) (suc (suc j)) (c ∷ s) (omega arith),
            rest,
          )
          refl,
      omega (arith, size),
    )
print_dpid-pairs zero j [] at h = absurd (omega arith)
print_dpid-pairs zero j (a ∷ []) at h = absurd (omega arith)
print_dpid-pairs zero j (a ∷ b ∷ c ∷ s) at h = absurd (omega arith)
print_dpid-pairs (suc k) j [] at h = absurd (omega arith)
print_dpid-pairs (suc k) j (a ∷ []) at h = absurd (omega arith)
print_dpid-pairs (suc k) j (a ∷ b ∷ []) at h = absurd (omega arith)

module _ ⦃idl : Idl⦄ where
  -- Sixteen bytes without a colon are printed as 23 bytes; storing what is printed in a bridge that
  -- exists succeeds, with a single call that sets `datapath-id` to these sixteen bytes.
  pub mod_bridge_datapath-format_dpid :
      (br_name : Text) (s : Ovsdb) (b : Bridge) (dpid : Text)
      → find_bridge br_name s.db ≡ some b
      → length dpid ≡ 16
      → NoColon dpid
      → (printed : Text) × (format_dpid dpid ≡ ok printed)
        × (txn_mod_bridge_datapath (some br_name) (some printed) s
            ≡ set (bridge_other_config b.uuid (smap_replace b.other_config "datapath-id" dpid)) s)
  unfolding txn_mod_bridge_datapath format_dpid
  mod_bridge_datapath-format_dpid br_name s b dpid found long clean =
      let (printed, size) = print_dpid-pairs 7 1 dpid refl long in
      let digits : filled 16 (digits_of (pairs dpid)) ≡ ok dpid =
        rw (digits_of-pairs dpid clean) (filled_full 16 dpid long) in
      let read : fill_dp 16 (pairs dpid) ≡ ok dpid = fill_dp-filled 16 (pairs dpid) ∙ digits in
      (pairs dpid, printed, rw (found, size, read) refl)
