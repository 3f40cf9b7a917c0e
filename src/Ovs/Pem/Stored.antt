-- ===== src/Ovs/Pem/Stored.antt =====
-- Adding a certificate in server/ovs-data.c, followed by its printer: the files of
-- `txn_add_owned_certificate` and `txn_add_external_certificate` on a disk that takes what it is given.
use of_config.Base.{ℕ, zero, suc, Text, false, Option, none, some, List, [], ◌∷◌, ◌≡◌, refl}
use of_config.Error.{ok}
use of_config.Ovs.Idl.{insert_at}
use of_config.Xml.{Node, children}
use of_config.Ovs.Certificates.{Ssl, System, path, blank_ssl, Switch}
use of_config.Ovs.Certificates.Add.{gather, store_external, txn_add_external_certificate}
use of_config.Ovs.Certificates.Both.{holding, uuid_eq_self}
use of_config.Ovs.Pem.{external_text, get_external_certificates_config}
use of_config.Ovs.Pem.Strings.{IsBody}
use of_config.Ovs.Pem.Printed.{KeyType, word, external-printed}
use of_config.Ovs.Pem.Disk.{
  Disk, certificate_written, write_cert-lem, certificate_written-read, key_written,
}

insert_at-nil : {A : Type 0} (i : ℕ) (x : A) → insert_at i x [] ≡ x ∷ []
insert_at-nil zero x = refl
insert_at-nil (suc i) x = refl

module _ {F : Type 0} (sys : System F) (disk : Disk sys) where
  store_external-printed :
      (r : Ssl) (rest : List Ssl) (switches : List Switch) (f : F) (rid cert : Text)
      (a b : Option Text)
      → IsBody cert
      → let done =
          store_external sys r.uuid
            (record { resid = some rid; cert = some cert; key_type = a; key_data = b })
            (holding sys (r ∷ rest) switches f) in
        (done.0 ≡ ok tt)
        × (get_external_certificates_config (disk.read done.1.files) done.1.ssls
            ≡ some (external_text rid cert))
  unfolding store_external
  store_external-printed r rest [] f rid cert a b h =
      rw
        (
          write_cert-lem sys disk cert (path sys "/ca_cert.pem") (holding sys (r ∷ rest) [] f),
          uuid_eq_self r.uuid,
          uuid_eq_self r.uuid,
        )
        (
          refl,
          external-printed
              (disk.read (certificate_written sys disk cert (path sys "/ca_cert.pem") f)) _ _ rid
              cert refl (certificate_written-read sys disk cert (path sys "/ca_cert.pem") f) h,
        )
  store_external-printed r rest (v ∷ more) f rid cert a b h =
      rw
        (
          write_cert-lem sys disk cert (path sys "/ca_cert.pem")
              (holding sys (r ∷ rest) (v ∷ more) f),
          uuid_eq_self r.uuid,
          uuid_eq_self r.uuid,
        )
        (
          refl,
          external-printed
              (disk.read (certificate_written sys disk cert (path sys "/ca_cert.pem") f)) _ _ rid
              cert refl (certificate_written-read sys disk cert (path sys "/ca_cert.pem") f) h,
        )

  -- The files with the certificate and the key.
  abbrev both_written : Text → KeyType → Text → F → F
  both_written cert k key f =
      key_written sys disk (word k) key (certificate_written sys disk cert (path sys "/cert.pem") f)

  -- Where the table SSL is empty, on a disk that takes what it is given: an <external-certificate> whose
  -- children give an id and a certificate without NUL and dash is stored with success, and the printer of
  -- the configuration then gives exactly these two texts.
  pub txn_add_external_certificate-printed :
      (node : Node) (switches : List Switch) (f : F) (rid cert : Text)
      → gather false
          (record { resid = none; cert = none; key_type = none; key_data = none })
          (children node)
        ≡ record { resid = some rid; cert = some cert; key_type = none; key_data = none }
      → IsBody cert
      → let done = txn_add_external_certificate sys (some node) (holding sys [] switches f) in
        (done.0 ≡ ok tt)
        × (get_external_certificates_config (disk.read done.1.files) done.1.ssls
            ≡ some (external_text rid cert))
  unfolding txn_add_external_certificate
  txn_add_external_certificate-printed node switches f rid cert given h =
      let row = blank_ssl (sys.fresh_ssl []) in
      rw (insert_at-nil (sys.slot_ssl []) row, given)
        (store_external-printed row [] switches f rid cert none none h)
