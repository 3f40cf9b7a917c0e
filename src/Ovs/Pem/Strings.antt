-- ===== src/Ovs/Pem/Strings.antt =====
-- Lemmas about `strstr`, cuts and positions in the texts of server/ovs-data.c.
use of_config.Base.{
  ℕ, suc, ◌+◌, ◌==◌, Text, Bool, true, false, ◌&&◌, none, some, [], ◌∷◌, ◌++◌, set, length, ◌≡◌,
  ◌≢◌, refl, ap, ◌∙◌, arith, All,
}
use of_config.Ovs.Pem.{starts_with, strstr, past, until_nul}

-- Text as in a PEM body: without a NUL and without a dash.
abbrev pub IsBody : Text → Type 0
IsBody t = All (λ c. (c ≢ 0) × (c ≢ b'-')) t

abbrev pub IsClean : Text → Type 0
IsClean t = All (λ c. c ≢ 0) t

and-false : (b : Bool) → (b && false) ≡ false
and-false true = refl
and-false false = refl

pub IsBody-IsClean : (t : Text) → IsBody t → IsClean t
IsBody-IsClean [] h = tt
IsBody-IsClean (c ∷ t) ((z, d), h) = (z, IsBody-IsClean t h)

pub until_nul-clean : (t rest : Text) → IsClean t → until_nul (t ++ 0 ∷ rest) ≡ t
until_nul-clean [] rest h = refl
until_nul-clean (c ∷ t) rest (z, h) =
    let other : (c == 0) ≡ false = ground arith in
    rw other (ap (λ x. c ∷ x) (until_nul-clean t rest h))

pub until_nul-all : (t : Text) → IsClean t → until_nul t ≡ t
until_nul-all [] h = refl
until_nul-all (c ∷ t) (z, h) =
    let other : (c == 0) ≡ false = ground arith in rw other (ap (λ x. c ∷ x) (until_nul-all t h))

-- A line that begins with a dash does not begin within a body.
not-here :
    (p t rest : Text) (c : ℕ)
    → IsBody t
    → starts_with (b'\n' ∷ b'-' ∷ p) (c ∷ (t ++ b'\n' ∷ b'-' ∷ rest)) ≡ false
not-here p [] rest c h = and-false (b'\n' == c)
not-here p (d ∷ t) rest c ((z, e), h) =
    let other : (b'-' == d) ≡ false = ground arith in rw other (and-false (b'\n' == c))

-- It is first found behind the body.
pub strstr-line :
    (p t rest : Text)
    → IsBody t
    → starts_with p rest ≡ true
    → strstr (b'\n' ∷ b'-' ∷ p) (t ++ b'\n' ∷ b'-' ∷ rest) ≡ some (length t)
strstr-line p [] rest h e = rw e refl
strstr-line p (c ∷ t) rest (hc, h) e = rw (not-here p t rest c h, strstr-line p t rest h e) refl

pub set-after : (t rest : Text) (k v : ℕ) → set (t ++ rest) (length t + k) v ≡ t ++ set rest k v
set-after [] rest k v = let e : 0 + k ≡ k = omega arith in ap (λ n. set rest n v) e
set-after (c ∷ t) rest k v =
    let e : suc (length t) + k ≡ suc (length t + k) = omega arith in
    ap (λ n. set (c ∷ (t ++ rest)) n v) e ∙ ap (λ x. c ∷ x) (set-after t rest k v)

pub past-after : (t rest : Text) (k : ℕ) → past (length t + k) (t ++ rest) ≡ past k rest
past-after [] rest k = let e : 0 + k ≡ k = omega arith in ap (λ n. past n rest) e
past-after (c ∷ t) rest k =
    let e : suc (length t) + k ≡ suc (length t + k) = omega arith in
    ap (λ n. past n (c ∷ (t ++ rest))) e ∙ past-after t rest k

-- A line that begins with a dash is not found in a body.
pub strstr-dash :
    (p t rest : Text)
    → IsBody t
    → strstr (b'-' ∷ p) rest ≡ none
    → strstr (b'-' ∷ p) (t ++ rest) ≡ none
strstr-dash p [] rest h e = e
strstr-dash p (c ∷ t) rest ((z, d), h) e =
    let other : (b'-' == c) ≡ false = ground arith in rw (other, strstr-dash p t rest h e) refl
