-- ===== src/Base/Lists.antt =====
-- Lists measured and indexed by native numbers, under the library's names, and predicates on them.
use Prim.Native.Nat.{ℕ, zero, suc, ◌+◌}
use mathlib.Core.Path.{◌≡◌, refl}
use mathlib.Core.Bool.{Bool, true, not}
use mathlib.Core.List.{List, [], ◌∷◌, ◌++◌}
use mathlib.Core.Option.{Option, none, some}
use native.Mathlib.Omega.{arith}
use mathlib.Core.Logic.{inl, inr}
use of_config.Base.Tests.{if◌then◌else◌, Bool-cases}

module _ {ℓ} {A : Type ℓ} where
  abbrev pub length : List A → ℕ
  length [] = 0
  length (x ∷ xs) = suc (length xs)

  -- A write out of bounds changes nothing.
  abbrev pub set : List A → ℕ → A → List A
  set [] i v = []
  set (x ∷ xs) zero v = v ∷ xs
  set (x ∷ xs) (suc i) v = x ∷ set xs i v

  -- The first element that passes a test: a search loop that leaves by `break`.
  abbrev pub find? : (A → Bool) → List A → Option A
  find? p [] = none
  find? p (x ∷ xs) = if p x then some x else find? p xs

  -- The elements that pass a test.
  abbrev pub keep : (A → Bool) → List A → List A
  keep p [] = []
  keep p (x ∷ xs) = let rest = keep p xs in if p x then x ∷ rest else rest

  pub length-append : (xs ys : List A) → length (xs ++ ys) ≡ length xs + length ys
  length-append [] ys = omega arith
  length-append (x ∷ xs) ys = omega (arith, length-append xs ys)

module _ {ℓ κ} {A : Type ℓ} (P : A → Type κ) where
  abbrev pub All : List A → Type κ
  All [] = Unit
  All (x ∷ xs) = P x × All xs

pub All-map {ℓ κ μ} :
    {A : Type ℓ} (P : A → Type κ) (Q : A → Type μ)
    → ((a : A) → P a → Q a)
    → (xs : List A) → All P xs
    → All Q xs
All-map P Q f [] h = tt
All-map P Q f (x ∷ xs) h = (f x h.0, All-map P Q f xs h.1)

module _ {ℓ} {A : Type ℓ} where
  abbrev pub count_if : (A → Bool) → List A → ℕ
  count_if p [] = 0
  count_if p (x ∷ xs) = if p x then suc (count_if p xs) else count_if p xs

  -- The elements that do not pass.
  abbrev pub others : (A → Bool) → List A → List A
  others p xs = keep (λ x. not (p x)) xs

  pub length-others :
      (p : A → Bool) (xs : List A) → length (others p xs) + count_if p xs ≡ length xs
  length-others p [] = omega arith
  length-others p (x ∷ xs) = ground (arith, length-others p xs)

  pub others_of_none : (p : A → Bool) (xs : List A) → count_if p xs ≡ 0 → others p xs ≡ xs
  others_of_none p [] h = refl
  others_of_none p (x ∷ xs) h = ground (arith, others_of_none p xs)

  pub find?-passes : (p : A → Bool) (xs : List A) {x : A} → find? p xs ≡ some x → p x ≡ true
  find?-passes p [] h = cc
  find?-passes p (y ∷ xs) {x} h = elim (Bool-cases (p y)) [
    | inl hit ↦ let at : some y ≡ some x = rw hit at h in let same : y ≡ x = cc in rw (← same) hit
    | inr miss ↦ find?-passes p xs (rw miss at h)
  ]

  pub others-append :
      (p : A → Bool) (xs ys : List A) → others p (xs ++ ys) ≡ others p xs ++ others p ys
  others-append p [] ys = refl
  others-append p (x ∷ xs) ys = ground (arith, others-append p xs ys)

module _ {ℓ κ} {A : Type ℓ} (P : A → Type κ) where
  pub All-append : (xs ys : List A) → All P xs → All P ys → All P (xs ++ ys)
  All-append [] ys h k = k
  All-append (x ∷ xs) ys h k = (h.0, All-append xs ys h.1 k)

  pub All-find? : (p : A → Bool) (xs : List A) {x : A} → All P xs → find? p xs ≡ some x → P x
  All-find? p [] h e = cc
  All-find? p (y ∷ xs) {x} h e = elim (Bool-cases (p y)) [
    | inl hit ↦ let at : some y ≡ some x = rw hit at e in let same : y ≡ x = cc in rw (← same) h.0
    | inr miss ↦ All-find? p xs h.1 (rw miss at e)
  ]
