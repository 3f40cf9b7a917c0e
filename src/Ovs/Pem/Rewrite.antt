-- ===== src/Ovs/Pem/Rewrite.antt =====
-- Changing a stored private key in server/ovs-data.c: `parse_pem`, `txn_mod_own_cert_key_type` and
-- `txn_mod_own_cert_key_data`.
use of_config.Base.{
  ℕ, zero, suc, ◌+◌, ltb, Text, Bool, true, Option, none, some, List, [], ◌∷◌, ◌++◌, if◌then◌else◌,
  length, ◌≡◌, refl, ap, ◌∙◌,
}
use of_config.Error.{Result, ok, fail, nc_err_new, op_failed}
use of_config.Xml.{Node, child_content}
use of_config.Ovs.Certificates.{
  Ssl, Certs, System, resid_own, find_ssl, Step, ◌>>=◌, ◌>>◌, answer, pure, raise, reads, NodeOp,
  append_all,
}
use of_config.Ovs.Certificates.Change.{found_ssl}
use of_config.Ovs.Pem.{both, past, key_places}
use of_config.Ovs.Pem.Strings.{IsBody}
use of_config.Ovs.Pem.Printed.{
  KeyType, of_rsa, of_dsa, rsa, dsa, word, key_begin, key_end, key_file, key_places-file,
}
use of_config.Ovs.Pem.Disk.{Disk, puts, append_all-lem, puts-read}

-- Calls on a key's file that is open: its bytes, or none where a step of reading it fails; `write` at a
-- place; `ftruncate` to no bytes.
pub record KeyFile (F : Type 0) : Type 0 where
  pub contents : Text → F → Option Text
  pub write_to : Text → ℕ → Text → F → ℕ × F
  pub truncate : Text → F → Bool × F

abbrev first_bytes : ℕ → Text → Text
first_bytes zero s = []
first_bytes (suc n) [] = []
first_bytes (suc n) (c ∷ s) = c ∷ first_bytes n s

-- The places of the two marks in the buffer, and the buffer itself.
abbrev Places : Type 0
Places = Text × (ℕ × ℕ)

abbrev valid : Option Places → Result Places
valid none = fail (some (nc_err_new op_failed))
valid (some p) = ok p

abbrev parsed : Option Text → Result Places
parsed none = fail (some (nc_err_new op_failed))
parsed (some pem) =
    let b = key_places pem in valid (both b.0 b.1 (λ start stop. (pem, (start, stop))))

abbrev or_none : Option Text → Text
or_none none = []
or_none (some t) = t

module _ {F : Type 0} (sys : System F) (key : KeyFile F) where
  unfoldable pub parse_pem : Text → Step F Places
  parse_pem file = do bytes ← reads (λ s. key.contents file s.files); answer (parsed bytes)

  -- `lseek` and `write`
  abbrev rewrite_at : Text → ℕ → Text → Step F (Unit {0})
  rewrite_at file at t s =
      let done = key.write_to file at t s.files in
      (
        if ltb done.0 (length t) then fail (some (nc_err_new op_failed)) else ok tt,
        record s { files = done.1 },
      )

  abbrev empty_file : Text → Step F (Unit {0})
  empty_file file s =
      let done = key.truncate file s.files in
      (if done.0 then ok tt else fail (some (nc_err_new op_failed)), record s { files = done.1 })

  -- An empty element only sets an error: the run goes on, with nothing to write.
  unfoldable pub txn_mod_own_cert_key_type : Option Text → NodeOp F
  txn_mod_own_cert_key_type none edit = raise (nc_err_new op_failed)
  txn_mod_own_cert_key_type (some resid) none = pure tt
  txn_mod_own_cert_key_type (some resid) (some node) = do
    r ← found_ssl sys resid_own (some resid)
    p ← parse_pem r.private_key
    rewrite_at r.private_key (p.1.0 + 11) (or_none (child_content node))
    rewrite_at r.private_key (p.1.1 + 10) (or_none (child_content node))

  unfoldable pub txn_mod_own_cert_key_data : Option Text → NodeOp F
  txn_mod_own_cert_key_data none edit = raise (nc_err_new op_failed)
  txn_mod_own_cert_key_data (some resid) none = pure tt
  txn_mod_own_cert_key_data (some resid) (some node) = do
    r ← found_ssl sys resid_own (some resid)
    p ← parse_pem r.private_key
    empty_file r.private_key
    append_all sys r.private_key
        (first_bytes 32 (past p.1.0 p.0) ∷ or_none (child_content node) ∷ [])
        (first_bytes 30 (past p.1.1 p.0)) 30

-- What such calls do where none of them fails.
pub record Opened {F : Type 0} {sys : System F} (disk : Disk sys) (key : KeyFile F) : Type 0 where
  pub read_as_is : (p : Text) (f : F) → key.contents p f ≡ disk.read f p
  pub truncated : (p : Text) (f : F) → (key.truncate p f).0 ≡ true
  pub truncated_empty : (p : Text) (f : F) → disk.read (key.truncate p f).1 p ≡ some []

past-all : (t rest : Text) → past (length t) (t ++ rest) ≡ rest
past-all [] rest = refl
past-all (c ∷ t) rest = past-all t rest

module _ {F : Type 0} (sys : System F) (key : KeyFile F) (disk : Disk sys)
    (opened : Opened disk key) where
  parse_pem-file :
      (p : Text) (k : KeyType) (body : Text) (s : Certs F)
      → IsBody body
      → disk.read s.files p ≡ some (key_file (word k) body)
      → parse_pem sys key p s
        ≡ (ok (key_file (word k) body, (0, length (key_begin (word k) ++ body))), s)
  unfolding parse_pem
  parse_pem-file p k body s h e =
      let file = key_file (word k) body in
      ap (λ b. (parsed b, s)) (opened.read_as_is p s.files ∙ e)
      ∙ ap (λ b. (valid (both b.0 b.1 (λ start stop. (file, (start, stop)))), s))
          (key_places-file k body h)

  -- The three writes, in a file that is empty.
  abbrev pieces : KeyType → Text → List Text
  pieces k new = key_begin (word k) ∷ new ∷ []

  abbrev writes : KeyType → Text → Text → Text → Step F (Unit {0})
  writes k p old new =
      let file = key_file (word k) old in
      append_all sys p (first_bytes 32 file ∷ new ∷ [])
        (first_bytes 30 (past (length (key_begin (word k) ++ old)) file)) 30

  writes-lem :
      (k : KeyType) (p old new : Text) (s : Certs F)
      → writes k p old new s
        ≡ (ok tt, record s { files = puts sys disk p (pieces k new) (key_end (word k)) s.files })
  writes-lem of_rsa p old new s =
      ap (λ t. append_all sys p (pieces of_rsa new) (first_bytes 30 t) 30 s)
        (past-all (key_begin rsa ++ old) (key_end rsa))
      ∙ append_all-lem sys disk p (pieces of_rsa new) (key_end rsa) s
  writes-lem of_dsa p old new s =
      ap (λ t. append_all sys p (pieces of_dsa new) (first_bytes 30 t) 30 s)
        (past-all (key_begin dsa ++ old) (key_end dsa))
      ∙ append_all-lem sys disk p (pieces of_dsa new) (key_end dsa) s

  puts-key :
      (k : KeyType) (p new : Text) (f : F)
      → disk.read f p ≡ some []
      → disk.read (puts sys disk p (pieces k new) (key_end (word k)) f) p
        ≡ some (key_file (word k) new)
  puts-key of_rsa p new f e = puts-read sys disk p (pieces of_rsa new) (key_end rsa) f [] e
  puts-key of_dsa p new f e = puts-read sys disk p (pieces of_dsa new) (key_end dsa) f [] e

  -- Where the row that has the id names a file with a key of type RSA or DSA, without NUL and dash, a
  -- change of the key's data by an element with text leaves the new key there, under the old type.
  txn_mod_own_cert_key_data-file :
      (resid : Text) (r : Ssl) (node : Node) (k : KeyType) (old new : Text) (s : Certs F)
      → find_ssl resid_own (some resid) s.ssls ≡ ok r
      → disk.read s.files r.private_key ≡ some (key_file (word k) old)
      → IsBody old
      → child_content node ≡ some new
      → let done = txn_mod_own_cert_key_data sys key (some resid) (some node) s in
        (done.0 ≡ ok tt) × (disk.read done.1.files r.private_key ≡ some (key_file (word k) new))
  unfolding txn_mod_own_cert_key_data
  txn_mod_own_cert_key_data-file resid r node k old new s found e h c =
      rw
        (found, parse_pem-file r.private_key k old s h e, opened.truncated r.private_key s.files, c)
        (let short = record s { files = (key.truncate r.private_key s.files).1 } in
          rw (writes-lem k r.private_key old new short) (
            refl,
            puts-key k r.private_key new short.files (opened.truncated_empty r.private_key s.files),
          ))
