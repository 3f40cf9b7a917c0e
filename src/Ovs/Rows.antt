-- ===== src/Ovs/Rows.antt =====
-- Tables of OVSDB as lists of rows: what changing one row does to searches and to the others.
use mathlib.Core.Option
use of_config.Base.{
  ℕ, zero, suc, Bool, true, false, List, [], ◌∷◌, ◌++◌, find?, All, count_if, ◌==◌, if◌then◌else◌,
  ◌≡◌, refl, arith, Bool-cases, inl, inr, ◌+◌, ==_iff,
}
use of_config.Ovs.Db.{Uuid}
use of_config.Ovs.Idl.{change, insert_at}

module _ {R : Type 0} (uuid : R → Uuid) where
  -- One row after the change.
  abbrev pub changed : Uuid → (R → R) → R → R
  changed u f r = if uuid r == u then f r else r

  pub find?-change :
      (p : R → Bool) (u : Uuid) (f : R → R) (rs : List R)
      → ((r : R) → p (f r) ≡ p r)
      → find? p (change uuid u f rs) ≡ Option.map (changed u f) (find? p rs)
  find?-change p u f [] h = refl
  find?-change p u f (r ∷ rs) h = ground (arith, h r, find?-change p u f rs h)

  pub change-change :
      (u : Uuid) (f g : R → R) (rs : List R)
      → ((r : R) → uuid (f r) ≡ uuid r)
      → change uuid u g (change uuid u f rs) ≡ change uuid u (λ r. g (f r)) rs
  change-change u f g [] h = refl
  change-change u f g (r ∷ rs) h = ground (arith, h r, change-change u f g rs h)

  -- The rows with the UUID of `r` are `r`.
  abbrev pub IsOnly : R → List R → Type 0
  IsOnly r rs = All (λ q. uuid q ≡ uuid r → q ≡ r) rs

  pub change_of_only :
      (r : R) (f : R → R) (rs : List R) → IsOnly r rs → f r ≡ r → change uuid (uuid r) f rs ≡ rs
  change_of_only r f [] h e = refl
  change_of_only r f (q ∷ rs) h e = elim (Bool-cases (uuid q == uuid r)) [
    | inl same ↦
        let at : q ≡ r = h.0 ((==_iff _ _).0 same) in
        rw (same, at, e, change_of_only r f rs h.1 e) refl
    | inr other ↦ rw (other, change_of_only r f rs h.1 e) refl
  ]

pub count_if-append :
    {A : Type 0} (p : A → Bool) (xs ys : List A)
    → count_if p (xs ++ ys) ≡ count_if p xs + count_if p ys
count_if-append p [] ys = omega arith
count_if-append p (x ∷ xs) ys = ground (arith, count_if-append p xs ys)

pub All-change :
    {R : Type 0} (P : R → Type 0) (uuid : R → Uuid) (u : Uuid) (f : R → R) (rs : List R)
    → ((r : R) → P r → P (f r))
    → All P rs
    → All P (change uuid u f rs)
All-change P uuid u f [] h k = tt
All-change P uuid u f (r ∷ rs) h k = (either (uuid r == u), All-change P uuid u f rs h k.1)
  where
    either : (b : Bool) → P (if b then f r else r)
    either true = h r k.0
    either false = k.0

pub All-insert_at :
    {R : Type 0} (P : R → Type 0) (n : ℕ) (r : R) (rs : List R)
    → P r
    → All P rs
    → All P (insert_at n r rs)
All-insert_at P zero r rs h k = (h, k)
All-insert_at P (suc n) r [] h k = (h, tt)
All-insert_at P (suc n) r (q ∷ rs) h k = (k.0, All-insert_at P n r rs h k.1)
