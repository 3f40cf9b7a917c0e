-- ===== src/Ovs/Pem/Printed.antt =====
-- The files of certificates and keys of server/ovs-data.c, in the two printers that read them.
use of_config.Base.{
  ℕ, zero, suc, ◌+◌, Text, codes, Bool, true, ◌&&◌, Option, none, some, List, [], ◌∷◌, ◌++◌, set,
  length, ltb, ◌≡◌, ◌≢◌, refl, ap, ◌∙◌, arith, All-append,
}
use of_config.Ovs.Certificates.{Ssl, resid_own, resid_ext}
use of_config.Ovs.Pem.{
  one_on, strstr, past, until_nul, both, certificate_from, certificate_part, key_from, key_bounds,
  key_places, key_part, external_text, owned_text, get_external_certificates_config,
  get_owned_certificates_config,
}
use of_config.Ovs.Pem.Strings.{
  IsBody, IsClean, IsBody-IsClean, until_nul-clean, until_nul-all, strstr-line, set-after,
  past-after, strstr-dash,
}

abbrev pub certificate_begin : Text
certificate_begin = codes "-----BEGIN CERTIFICATE-----\n"

abbrev pub certificate_end : Text
certificate_end = codes "\n-----END CERTIFICATE-----"

-- A certificate's file.
abbrev pub certificate_file : Text → Text
certificate_file body = (certificate_begin ++ body) ++ certificate_end

abbrev is_clean : Text → Bool
is_clean [] = true
is_clean (c ∷ t) = ltb 0 c && is_clean t

is_clean-IsClean : (t : Text) → is_clean t ≡ true → IsClean t
is_clean-IsClean [] e = tt
is_clean-IsClean (c ∷ t) e = (ground arith, is_clean-IsClean t (ground arith))

-- Text between two lines of constants.
framed-IsClean :
    (a body b : Text)
    → is_clean a ≡ true
    → is_clean b ≡ true
    → IsBody body
    → IsClean ((a ++ body) ++ b)
framed-IsClean a body b e f h =
    let clean : ℕ → Type 0 = λ c. c ≢ 0 in
    All-append clean (a ++ body) b
      (All-append clean a body (is_clean-IsClean a e) (IsBody-IsClean body h))
      (is_clean-IsClean b f)

abbrev nexts : ℕ → Option ℕ → Option ℕ
nexts zero m = m
nexts (suc n) m = one_on (nexts n m)

-- The byte behind a text is cut off.
set-end : (t rest : Text) (v : ℕ) → set (t ++ rest) (length t) v ≡ t ++ set rest 0 v
set-end t rest v =
    let e : length t ≡ length t + 0 = omega arith in
    ap (λ n. set (t ++ rest) n v) e ∙ set-after t rest 0 v

strstr-certificate_end :
    (body : Text)
    → IsBody body
    → strstr certificate_end (certificate_file body) ≡ some (length (certificate_begin ++ body))
strstr-certificate_end body h =
    let line = codes "----END CERTIFICATE-----" in
    ap (nexts 27) (strstr-line line (b'\n' ∷ body) line ((ground arith, ground arith), h) refl)

certificate_from-file :
    (body : Text)
    → IsBody body
    → certificate_from (certificate_file body) 0 (length (certificate_begin ++ body)) ≡ body
certificate_from-file body h =
    ap (λ t. until_nul (past 28 t)) (set-end (certificate_begin ++ body) certificate_end 0)
    ∙ until_nul-clean body (codes "-----END CERTIFICATE-----") (IsBody-IsClean body h)

pub certificate_part-file :
    (body : Text) → IsBody body → certificate_part (certificate_file body) ≡ some body
unfolding certificate_part
certificate_part-file body h =
    let file = certificate_file body in
    ap (λ s. both (strstr certificate_begin s) (strstr certificate_end s) (certificate_from file))
      (until_nul-all file (framed-IsClean certificate_begin body certificate_end refl refl h))
    ∙ ap (λ m. both (some 0) m (certificate_from file)) (strstr-certificate_end body h)
    ∙ ap some (certificate_from-file body h)

-- The words around a private key of a type.
abbrev pub key_begin : Text → Text
key_begin type = codes "-----BEGIN " ++ (type ++ codes " PRIVATE KEY-----\n")

abbrev pub key_end : Text → Text
key_end type = codes "\n-----END " ++ (type ++ codes " PRIVATE KEY-----")

-- A private key's file.
abbrev pub key_file : Text → Text → Text
key_file type body = (key_begin type ++ body) ++ key_end type

abbrev pub rsa : Text
rsa = codes "RSA"

abbrev pub dsa : Text
dsa = codes "DSA"

-- What the two cuts leave of a key's file whose type has three letters.
abbrev cut : Text → Text → Text
cut type body = (key_begin type ++ body) ++ set (set (key_end type) 0 0) 13 0

key_cuts :
    (type body : Text)
    → let n = length (key_begin type ++ body) in
      set (set (key_file type body) n 0) (n + 13) 0 ≡ cut type body
key_cuts type body =
    let before = key_begin type ++ body in
    ap (λ t. set t (length before + 13) 0) (set-end before (key_end type) 0)
    ∙ set-after before (set (key_end type) 0 0) 13 0

key_from-file :
    (x y z : ℕ) (body : Text)
    → is_clean (x ∷ y ∷ z ∷ []) ≡ true
    → IsBody body
    → let type = x ∷ y ∷ z ∷ [] in
      key_from (key_file type body) 0 (length (key_begin type ++ body)) ≡ (type, body)
key_from-file x y z body w h =
    let type = x ∷ y ∷ z ∷ [] in
    let before = key_begin type ++ body in
    ap (λ b. (until_nul (past (length before + 10) b), until_nul (past 32 b))) (key_cuts type body)
    ∙ ap (λ t. (until_nul t, until_nul (past 32 (cut type body))))
        (past-after before (set (set (key_end type) 0 0) 13 0) 10)
    ∙ ap (λ t. (t, until_nul (past 32 (cut type body))))
        (until_nul-clean type (codes "PRIVATE KEY-----") (is_clean-IsClean type w))
    ∙ ap (λ t. (type, t))
        (until_nul-clean body (codes "-----END " ++ (type ++ 0 ∷ codes "PRIVATE KEY-----"))
          (IsBody-IsClean body h))

-- An RSA key's lines are found in its file.
strstr-rsa_end :
    (body : Text)
    → IsBody body
    → strstr (key_end rsa) (key_file rsa body) ≡ some (length (key_begin rsa ++ body))
strstr-rsa_end body h =
    let line = codes "----END RSA PRIVATE KEY-----" in
    ap (nexts 31) (strstr-line line (b'\n' ∷ body) line ((ground arith, ground arith), h) refl)

strstr-dsa_end :
    (body : Text)
    → IsBody body
    → strstr (key_end dsa) (key_file dsa body) ≡ some (length (key_begin dsa ++ body))
strstr-dsa_end body h =
    let line = codes "----END DSA PRIVATE KEY-----" in
    ap (nexts 31) (strstr-line line (b'\n' ∷ body) line ((ground arith, ground arith), h) refl)

-- No RSA key begins in a DSA key's file.
rsa-not_in_dsa : (body : Text) → IsBody body → strstr (key_begin rsa) (key_file dsa body) ≡ none
rsa-not_in_dsa body h =
    ap (nexts 32) (strstr-dash (codes "----BEGIN RSA PRIVATE KEY-----\n") body (key_end dsa) h refl)

-- The two types of keys, and their words.
pub data KeyType : Type 0 where
  of_rsa : KeyType
  of_dsa : KeyType

abbrev pub word : KeyType → Text
word of_rsa = rsa
word of_dsa = dsa

pub key_places-file :
    (k : KeyType) (body : Text)
    → IsBody body
    → key_places (key_file (word k) body) ≡ (some 0, some (length (key_begin (word k) ++ body)))
key_places-file of_rsa body h =
    ap (λ s. key_bounds s (strstr (key_begin rsa) s))
      (until_nul-all (key_file rsa body)
        (framed-IsClean (key_begin rsa) body (key_end rsa) refl refl h))
    ∙ ap (λ m. (some 0, m)) (strstr-rsa_end body h)
key_places-file of_dsa body h =
    ap (λ s. key_bounds s (strstr (key_begin rsa) s))
      (until_nul-all (key_file dsa body)
        (framed-IsClean (key_begin dsa) body (key_end dsa) refl refl h))
    ∙ ap (key_bounds (key_file dsa body)) (rsa-not_in_dsa body h)
    ∙ ap (λ m. (some 0, m)) (strstr-dsa_end body h)

key_from-word :
    (k : KeyType) (body : Text)
    → IsBody body
    → key_from (key_file (word k) body) 0 (length (key_begin (word k) ++ body)) ≡ (word k, body)
key_from-word of_rsa body h = key_from-file b'R' b'S' b'A' body refl h
key_from-word of_dsa body h = key_from-file b'D' b'S' b'A' body refl h

key_part-file :
    (k : KeyType) (body : Text)
    → IsBody body
    → key_part (key_file (word k) body) ≡ some (word k, body)
unfolding key_part
key_part-file k body h =
    ap (λ b. both b.0 b.1 (key_from (key_file (word k) body))) (key_places-file k body h)
    ∙ ap some (key_from-word k body h)

pub external-printed :
    (read : Text → Option Text) (r : Ssl) (rest : List Ssl) (rid cert : Text)
    → r.external_ids resid_ext ≡ some rid
    → read r.ca_cert ≡ some (certificate_file cert)
    → IsBody cert
    → get_external_certificates_config read (r ∷ rest) ≡ some (external_text rid cert)
unfolding get_external_certificates_config
external-printed read r rest rid cert ids file h = rw (ids, file, certificate_part-file cert h) refl

pub owned-printed :
    (read : Text → Option Text) (r : Ssl) (rest : List Ssl) (rid cert : Text) (k : KeyType)
    (key : Text)
    → r.external_ids resid_own ≡ some rid
    → read r.certificate ≡ some (certificate_file cert)
    → read r.private_key ≡ some (key_file (word k) key)
    → IsBody cert
    → IsBody key
    → get_owned_certificates_config read (r ∷ rest) ≡ some (owned_text rid cert (word k, key))
unfolding get_owned_certificates_config
owned-printed read r rest rid cert k key ids file key_at h hk =
    rw (ids, file, certificate_part-file cert h, key_at, key_part-file k key hk) refl
