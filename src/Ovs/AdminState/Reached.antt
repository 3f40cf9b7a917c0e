-- ===== src/Ovs/AdminState/Reached.antt =====
-- What a successful `txn_mod_port_admin_state` of server/ovs-data.c has reached.
use of_config.Base.{
  ℕ, ◌%◌, ◌==◌, arith, ap, sym, Text, codes, Bool, true, false, Option, none, some, text_eq,
  text_eq_iff, ◌≡◌, ◌≢◌, ◌⊎◌, refl, Bool-cases, inl, inr,
}
use of_config.Error.{Result, ok, fail}
use of_config.Ovs.AdminState.{
  Ioctl, is_up, with_up, without_up, no_change, bad_value, dev_get_flags, dev_set_flags,
  flags_or_zero, check_state, txn_mod_port_admin_state,
}

-- The kernel reports flags whose lowest bit, IFF_UP, is this one.
abbrev pub Flagged : ℕ → Option ℕ → Type 0
Flagged bit none = ⊥
Flagged bit (some f) = f % 2 ≡ bit

module _ {K : Type 0} (dev : Ioctl K) where
  reports_up : (o : Option ℕ) → is_up (flags_or_zero dev o) ≡ true → Flagged 1 o
  reports_up none h = cc
  reports_up (some f) h = ground arith

  reports_down : (o : Option ℕ) → is_up (flags_or_zero dev o) ≡ false → (o ≡ none) ⊎ Flagged 0 o
  reports_down none h = inl refl
  reports_down (some f) h = inr (ground arith)

  some_flag : (o : Option ℕ) → (flags_or_zero dev o == 0) ≡ false → (f : ℕ) × (o ≡ some f) × (f ≢ 0)
  some_flag none h = cc
  some_flag (some f) h = (f, refl, λ e. ground arith)

  check_state-reached :
      (req : Bool) (x : Text) (k k' : K)
      → check_state dev req x k ≡ (ok tt, k')
      → is_up (dev_get_flags dev k' x) ≡ req
  check_state-reached true x k k' h = elim (Bool-cases (is_up (dev_get_flags dev k x))) [
    | inl state ↦
        let run : ◌≡◌ {A = Result (Unit {0}) × K} (ok tt, k) (ok tt, k') = rw state at h in
        let same : k ≡ k' = ap (λ r. r.1) run in rw (← same) state
    | inr state ↦
        let run : ◌≡◌ {A = Result (Unit {0}) × K} (fail (some no_change), k) (ok tt, k') =
          rw state at h in
        cc
  ]
  check_state-reached false x k k' h = elim (Bool-cases (is_up (dev_get_flags dev k x))) [
    | inr state ↦
        let run : ◌≡◌ {A = Result (Unit {0}) × K} (ok tt, k) (ok tt, k') = rw state at h in
        let same : k ≡ k' = ap (λ r. r.1) run in rw (← same) state
    | inl state ↦
        let run : ◌≡◌ {A = Result (Unit {0}) × K} (fail (some no_change), k) (ok tt, k') =
          rw state at h in
        cc
  ]

  -- What holds after a success with a value, or with none.
  abbrev pub Reached : Text → Option Text → K → K → Type 0
  Reached x (some value) k k' =
      ((value ≡ codes "up") × Flagged 1 (dev.get_flags k' x))
      ⊎ ((value ≡ codes "down") × ((dev.get_flags k' x ≡ none) ⊎ Flagged 0 (dev.get_flags k' x)))
  Reached x none k k' =
      ((k' ≡ k) × ((f : ℕ) × (dev.get_flags k x ≡ some f) × (f ≢ 0)))
      ⊎ Flagged 1 (dev.get_flags k' x)

  given :
      (x value : Text) (k k' : K)
      → txn_mod_port_admin_state dev (some x) (some value) k ≡ (ok tt, k')
      → Reached x (some value) k k'
  unfolding txn_mod_port_admin_state dev_get_flags
  given x value k k' h = elim (Bool-cases (text_eq value (codes "up"))) [
    | inl up ↦
        let done : check_state dev true x (dev_set_flags dev k x (with_up (dev_get_flags dev k x)))
            ≡ (ok tt, k') =
          rw up at h in
        inl (
          (text_eq_iff value (codes "up")).0 up,
          reports_up (dev.get_flags k' x) (check_state-reached true x _ k' done),
        )
    | inr not_up ↦ elim (Bool-cases (text_eq value (codes "down"))) [
      | inl down ↦
          let done : check_state dev false x
                (dev_set_flags dev k x (without_up (dev_get_flags dev k x)))
              ≡ (ok tt, k') =
            rw (not_up, down) at h in
          inr (
            (text_eq_iff value (codes "down")).0 down,
            reports_down (dev.get_flags k' x) (check_state-reached false x _ k' done),
          )
      | inr other ↦
          let run : ◌≡◌ {A = Result (Unit {0}) × K} (fail (some bad_value), k) (ok tt, k') =
            rw (not_up, other) at h in
          cc
    ]
  ]

  by_default :
      (x : Text) (k k' : K)
      → txn_mod_port_admin_state dev (some x) none k ≡ (ok tt, k')
      → Reached x none k k'
  unfolding txn_mod_port_admin_state dev_get_flags
  by_default x k k' h = elim (Bool-cases (dev_get_flags dev k x == 0)) [
    | inl zero_flags ↦
        let done : check_state dev true x (dev_set_flags dev k x (with_up (dev_get_flags dev k x)))
            ≡ (ok tt, k') =
          rw zero_flags at h in
        inr (reports_up (dev.get_flags k' x) (check_state-reached true x _ k' done))
    | inr flagged ↦
        let run : ◌≡◌ {A = Result (Unit {0}) × K} (ok tt, k) (ok tt, k') = rw flagged at h in
        inl (sym (ap (λ r. r.1) run), some_flag (dev.get_flags k x) flagged)
  ]

  -- Whatever the kernel does, a success means this. With a value, it is `up` and the kernel then reports
  -- the interface's flags with the bit IFF_UP set, or it is `down` and the kernel reports them with the
  -- bit clear, or reports none. With no value, either nothing was changed and the kernel reported some
  -- flag before, whichever it was, or it reports the bit set afterwards.
  pub txn_mod_port_admin_state-reached :
      (port_name : Text) (value : Option Text) (k k' : K)
      → txn_mod_port_admin_state dev (some port_name) value k ≡ (ok tt, k')
      → Reached port_name value k k'
  txn_mod_port_admin_state-reached x none k k' h = by_default x k k' h
  txn_mod_port_admin_state-reached x (some value) k k' h = given x value k k' h
