-- ===== src/Error.antt =====
-- Results of the C functions: EXIT_SUCCESS with a value, EXIT_FAILURE with the `struct nc_err` that
-- was set, if any, or a run that C leaves undefined (a NULL or dangling pointer is followed).
use of_config.Base.{String, Text, Option, none, some, ◌≡◌, refl, ◌⊎◌, inl, inr}

-- The error tags of libnetconf that the sources use.
pub data ErrTag : Type 0 where
  op_failed bad_elem bad_attr missing_elem data_missing data_exists lock_denied : ErrTag

pub record NcErr : Type 0 where
  pub tag : ErrTag
  pub info_badelem : Option String
  pub info_badattr : Option String
  pub info_sid : Option Text
  pub msg : Option String

-- `nc_err_new(tag)`, and the same followed by `nc_err_set` of an element or a message.
abbrev pub nc_err_new : ErrTag → NcErr
nc_err_new t = record {
  tag = t;
  info_badelem = none;
  info_badattr = none;
  info_sid = none;
  msg = none;
}

abbrev pub bad_element : String → NcErr
bad_element x = record (nc_err_new bad_elem) { info_badelem = some x }

abbrev pub bad_element_msg : String → String → NcErr
bad_element_msg x m = record (bad_element x) { msg = some m }

abbrev pub failed_msg : String → NcErr
failed_msg m = record (nc_err_new op_failed) { msg = some m }

pub data Result {ℓ} (A : Type ℓ) : Type ℓ where
  ok : A → Result A
  fail : Option NcErr → Result A
  fault : Result A

infixl 5 ◌>>=◌ ◌>>◌
abbrev pub ◌>>=◌ {ℓ κ} : {A : Type ℓ} {B : Type κ} → Result A → (A → Result B) → Result B
ok a >>= f = f a
fail e >>= f = fail e
fault >>= f = fault

abbrev pub ◌>>◌ {ℓ} : {B : Type ℓ} → Result (Unit {0}) → Result B → Result B
m >> k = m >>= λ _. k

-- A chain that ends well: its first step did, and so did the rest.
module _ {ℓ κ} {X : Type ℓ} {Y : Type κ} where
  pub ok_of_bind :
      (first : Result X) (rest : X → Result Y) {y : Y}
      → (first >>= rest) ≡ ok y
      → (x : X) × (first ≡ ok x) × (rest x ≡ ok y)
  ok_of_bind (ok x) rest run = (x, refl, run)
  ok_of_bind (fail e) rest run = cc
  ok_of_bind fault rest run = cc

pub ok-injective {ℓ} : {A : Type ℓ} {a b : A} → ok a ≡ ok b → a ≡ b
ok-injective e = cc

pub Result-cases {ℓ} :
    {A : Type ℓ} (r : Result A)
    → ((a : A) × (r ≡ ok a)) ⊎ ((e : Option NcErr) × (r ≡ fail e)) ⊎ (r ≡ fault)
Result-cases (ok a) = inl (a, refl)
Result-cases (fail e) = inr (inl (e, refl))
Result-cases fault = inr (inr refl)
