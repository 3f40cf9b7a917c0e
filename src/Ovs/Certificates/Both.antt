-- ===== src/Ovs/Certificates/Both.antt =====
-- The two certificates of server/ovs-data.c share a row, which goes with the second of them.
use of_config.Base.{
  ℕ, true, Text, none, some, List, [], ◌∷◌, ◌≡◌, refl, ap, ◌∙◌, text_eq_refl, ◌==◌, arith,
}
use of_config.Error.{ok}
use of_config.Xml.{Node}
use of_config.Ovs.Idl.{change}
use of_config.Ovs.Db.{smap_remove}
use of_config.Edit.Live.{get_key, above}
use of_config.Ovs.Certificates.{
  Ssl, Switch, Certs, System, resid_own, resid_ext, path, first_ssl, find_ssl,
}
use of_config.Ovs.Certificates.Change.{txn_del_owned_certificate, txn_del_external_certificate}

pub uuid_eq_self : (u : ℕ) → (u == u) ≡ true
uuid_eq_self u = ground arith

module _ {F : Type 0} (sys : System F) where
  -- The state with that one row.
  abbrev pub holding : List Ssl → List Switch → F → Certs F
  holding rows switches f = record { ssls = rows; switches = switches; files = f }

  abbrev pub unlinked_first : Switch → List Switch → List Switch
  unlinked_first v rest = change (λ q. q.uuid) v.uuid (λ q. record q { ssl = none }) (v ∷ rest)

  -- What is left of the row, and of the files, after the first deletion.
  abbrev pub without_own : Ssl → Ssl
  without_own r = record r {
    certificate = [];
    private_key = [];
    external_ids = smap_remove r.external_ids resid_own;
  }

  abbrev pub without_ext : Ssl → Ssl
  without_ext r = record r { ca_cert = []; external_ids = smap_remove r.external_ids resid_ext }

  abbrev pub no_own_files : F → F
  no_own_files f = sys.unlink (path sys "/key.pem") (sys.unlink (path sys "/cert.pem") f)

  abbrev pub no_ext_file : F → F
  no_ext_file f = sys.unlink (path sys "/ca_cert.pem") f

  module _ (a b : Text) (r : Ssl) (switches : List Switch) (f : F) where
    first_own :
        (own : Node)
        → get_key sys.is_blank (above own) "resource-id" ≡ ok (some a)
        → r.external_ids resid_own ≡ some a
        → r.external_ids resid_ext ≡ some b
        → txn_del_owned_certificate sys (some own) (holding (r ∷ []) switches f)
          ≡ (ok tt, holding (without_own r ∷ []) switches (no_own_files f))
    unfolding txn_del_owned_certificate find_ssl first_ssl
    first_own own k ra rb =
        rw
          (
            txn_del_owned_certificate,
            k,
            find_ssl,
            first_ssl,
            ra,
            text_eq_refl a,
            rb,
            uuid_eq_self r.uuid,
            uuid_eq_self r.uuid,
            uuid_eq_self r.uuid,
          )
          refl

    first_ext :
        (ext : Node)
        → get_key sys.is_blank (above ext) "resource-id" ≡ ok (some b)
        → r.external_ids resid_own ≡ some a
        → r.external_ids resid_ext ≡ some b
        → txn_del_external_certificate sys (some ext) (holding (r ∷ []) switches f)
          ≡ (ok tt, holding (without_ext r ∷ []) switches (no_ext_file f))
    unfolding txn_del_external_certificate find_ssl first_ssl
    first_ext ext k ra rb =
        rw
          (
            txn_del_external_certificate,
            k,
            find_ssl,
            first_ssl,
            rb,
            text_eq_refl b,
            ra,
            uuid_eq_self r.uuid,
            uuid_eq_self r.uuid,
          )
          refl

    last_own :
        (own : Node) (v : Switch)
        → get_key sys.is_blank (above own) "resource-id" ≡ ok (some a)
        → r.external_ids resid_own ≡ some a
        → r.external_ids resid_ext ≡ none
        → txn_del_owned_certificate sys (some own) (holding (r ∷ []) (v ∷ switches) f)
          ≡ (ok tt, holding [] (unlinked_first v switches) f)
    unfolding txn_del_owned_certificate find_ssl first_ssl
    last_own own v k ra rb =
        rw
          (
            txn_del_owned_certificate,
            k,
            find_ssl,
            first_ssl,
            ra,
            text_eq_refl a,
            rb,
            uuid_eq_self r.uuid,
          )
          refl

    last_ext :
        (ext : Node) (v : Switch)
        → get_key sys.is_blank (above ext) "resource-id" ≡ ok (some b)
        → r.external_ids resid_own ≡ none
        → r.external_ids resid_ext ≡ some b
        → txn_del_external_certificate sys (some ext) (holding (r ∷ []) (v ∷ switches) f)
          ≡ (ok tt, holding [] (unlinked_first v switches) f)
    unfolding txn_del_external_certificate find_ssl first_ssl
    last_ext ext v k ra rb =
        rw
          (
            txn_del_external_certificate,
            k,
            find_ssl,
            first_ssl,
            rb,
            text_eq_refl b,
            ra,
            uuid_eq_self r.uuid,
          )
          refl

  -- Where the only SSL row holds both certificates, with the ids that the two nodes name, deleting both
  -- succeeds in either order: no SSL row is left, and the first Open_vSwitch row is linked with none. Of
  -- the files only those of the certificate that goes first are removed.
  pub del_both_certificates :
      (own ext : Node) (a b : Text) (r : Ssl) (v : Switch) (rest : List Switch) (f : F)
      → get_key sys.is_blank (above own) "resource-id" ≡ ok (some a)
      → get_key sys.is_blank (above ext) "resource-id" ≡ ok (some b)
      → r.external_ids resid_own ≡ some a
      → r.external_ids resid_ext ≡ some b
      → (txn_del_external_certificate sys
            (some ext)
            (txn_del_owned_certificate sys (some own) (holding (r ∷ []) (v ∷ rest) f)).1
          ≡ (ok tt, holding [] (unlinked_first v rest) (no_own_files f)))
        × (txn_del_owned_certificate sys
              (some own)
              (txn_del_external_certificate sys (some ext) (holding (r ∷ []) (v ∷ rest) f)).1
            ≡ (ok tt, holding [] (unlinked_first v rest) (no_ext_file f)))
  del_both_certificates own ext a b r v rest f ka kb ra rb = (
    ap (λ p. txn_del_external_certificate sys (some ext) p.1)
          (first_own a b r (v ∷ rest) f own ka ra rb)
        ∙ last_ext a b (without_own r) rest (no_own_files f) ext v kb refl rb,
    ap (λ p. txn_del_owned_certificate sys (some own) p.1)
          (first_ext a b r (v ∷ rest) f ext kb ra rb)
        ∙ last_own a b (without_ext r) rest (no_ext_file f) own v ka ra refl,
  )
