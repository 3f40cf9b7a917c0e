-- ===== src/Ovs/Arrays.antt =====
-- The loops of server/ovs-data.c that copy an array of references into one which is an entry
-- shorter, leaving the matching entry out.
use mathlib.Core.Option
use of_config.Base.{
  ℕ, zero, suc, ◌≤◌, ◌<◌, Bool, Option, none, some, List, [], ◌∷◌, length, others, All,
  if◌then◌else◌, ◌≡◌, refl, arith, Bool-cases, inl, inr,
}
use of_config.Error.{Result, ok, ◌>>=◌}

module _ {A : Type 0} (test : A → Result Bool) where
  abbrev pub push : A → Result (Option (List A)) → Result (Option (List A))
  push x r = r >>= λ o. ok (Option.map (λ l. x ∷ l) o)

  -- `none`: an entry that stays finds the new array full, and the function returns. `room` is the space
  -- that is left.
  unfoldable pub rebuild : ℕ → List A → Result (Option (List A))
  rebuild room [] = ok (some [])
  rebuild zero (x ∷ xs) = do hit ← test x; let rest = rebuild zero xs; if hit then rest else ok none
  rebuild (suc room) (x ∷ xs) = do
    hit ← test x
    let dropped = rebuild (suc room) xs
    let kept = push x (rebuild room xs)
    if hit then dropped else kept

  module _ (p : A → Bool) where
    abbrev pub Reads : List A → Type 0
    Reads l = All (λ x. test x ≡ ok (p x)) l

    -- Where the entries can be read and those that stay fit, they are what is copied.
    pub rebuild_fits :
        (room : ℕ) (l : List A)
        → Reads l
        → length (others p l) ≤ room
        → rebuild room l ≡ ok (some (others p l))
    unfolding rebuild
    rebuild_fits zero [] h fits = refl
    rebuild_fits (suc room) [] h fits = refl
    rebuild_fits zero (x ∷ xs) h fits = elim (Bool-cases (p x)) [
      | inl hit ↦ rw (h.0, hit) (rebuild_fits zero xs h.1 (rw hit at fits))
      | inr miss ↦ absurd (let long = rw miss at fits in omega arith)
    ]
    rebuild_fits (suc room) (x ∷ xs) h fits = elim (Bool-cases (p x)) [
      | inl hit ↦ rw (h.0, hit) (rebuild_fits (suc room) xs h.1 (rw hit at fits))
      | inr miss ↦
          let rest = rebuild_fits room xs h.1 (let short = rw miss at fits in omega arith) in
          rw (h.0, miss, rest) refl
    ]

    pub rebuild_full :
        (room : ℕ) (l : List A) → Reads l → room < length (others p l) → rebuild room l ≡ ok none
    unfolding rebuild
    rebuild_full zero [] h full = absurd (omega arith)
    rebuild_full (suc room) [] h full = absurd (omega arith)
    rebuild_full zero (x ∷ xs) h full = elim (Bool-cases (p x)) [
      | inl hit ↦ rw (h.0, hit) (rebuild_full zero xs h.1 (rw hit at full))
      | inr miss ↦ rw (h.0, miss) refl
    ]
    rebuild_full (suc room) (x ∷ xs) h full = elim (Bool-cases (p x)) [
      | inl hit ↦ rw (h.0, hit) (rebuild_full (suc room) xs h.1 (rw hit at full))
      | inr miss ↦
          let rest = rebuild_full room xs h.1 (let long = rw miss at full in omega arith) in
          rw (h.0, miss, rest) refl
    ]
