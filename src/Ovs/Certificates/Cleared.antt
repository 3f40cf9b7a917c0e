-- ===== src/Ovs/Certificates/Cleared.antt =====
-- What `txn_mod_own_cert_certificate` of server/ovs-data.c clears.
use of_config.Base.{
  ℕ, false, Text, none, some, List, [], ◌∷◌, ◌≡◌, ◌⊎◌, inl, inr, refl, map, ap, All, ◌==◌,
  Bool-cases,
}
use of_config.Error.{ok}
use of_config.Ovs.Idl.{change}
use of_config.Ovs.Certificates.{Ssl, Certs, System, resid_own, find_ssl}
use of_config.Ovs.Certificates.Change.{txn_mod_own_cert_certificate}

abbrev pub clear : Ssl → Ssl
clear r = record r { ca_cert = [] }

certificates-change :
    (u : ℕ) (rows : List Ssl)
    → map (λ r. r.certificate) (change (λ r. r.uuid) u clear rows) ≡ map (λ r. r.certificate) rows
certificates-change u [] = refl
certificates-change u (r ∷ rows) = elim (Bool-cases (r.uuid == u)) [
  | inl e ↦ rw e (ap (λ l. r.certificate ∷ l) (certificates-change u rows))
  | inr e ↦ rw e (ap (λ l. r.certificate ∷ l) (certificates-change u rows))
]

abbrev pub NoCa : ℕ → Ssl → Type 0
NoCa u r = ((r.uuid == u) ≡ false) ⊎ (r.ca_cert ≡ [])

NoCa-change : (u : ℕ) (rows : List Ssl) → All (NoCa u) (change (λ r. r.uuid) u clear rows)
NoCa-change u [] = tt
NoCa-change u (r ∷ rows) = elim (Bool-cases (r.uuid == u)) [
  | inl e ↦ rw e (inr refl, NoCa-change u rows)
  | inr e ↦ rw e (inl e, NoCa-change u rows)
]

module _ {F : Type 0} (sys : System F) where
  -- Clearing the certificate of the owned certificate succeeds and leaves each row's certificate as it
  -- was; what is emptied in the row is the external certificate.
  pub mod_own_cert_certificate_lem :
      (rid : Text) (r : Ssl) (s : Certs F)
      → find_ssl resid_own (some rid) s.ssls ≡ ok r
      → ((txn_mod_own_cert_certificate sys (some rid) none s).0 ≡ ok tt)
        × (map (λ q. q.certificate) (txn_mod_own_cert_certificate sys (some rid) none s).1.ssls
            ≡ map (λ q. q.certificate) s.ssls)
        × All (NoCa r.uuid) (txn_mod_own_cert_certificate sys (some rid) none s).1.ssls
  unfolding txn_mod_own_cert_certificate
  mod_own_cert_certificate_lem rid r s e = (
    rw (txn_mod_own_cert_certificate, e) refl,
    rw (txn_mod_own_cert_certificate, e) (certificates-change r.uuid s.ssls),
    rw (txn_mod_own_cert_certificate, e) (NoCa-change r.uuid s.ssls),
  )
