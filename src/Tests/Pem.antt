-- ===== src/Tests/Pem.antt =====
-- The theorems about the certificates of server/ovs-data.c on one row, with a disk that takes everything
-- and keeps nothing.
use of_config.Base.{codes, some, [], ◌∷◌, ◌≡◌, refl, true, false}
use of_config.Error.{ok}
use of_config.Xml.{Node}
use of_config.Ovs.Db.{smap_init, smap_replace}
use of_config.Edit.Live.{get_key, above}
use of_config.Ovs.Certificates.{
  Ssl, Switch, Certs, System, resid_own, resid_ext, find_ssl, first_ssl,
}
use of_config.Ovs.Certificates.Change.{txn_del_owned_certificate, txn_del_external_certificate}
use of_config.Ovs.Certificates.Both.{
  holding, unlinked_first, no_own_files, no_ext_file, del_both_certificates,
}
use of_config.Tests.Sample.{el, leaf}

abbrev Disk : Type 0
Disk = Unit {0}

abbrev system : System Disk
system = record {
  creat = λ file f. (true, f);
  write = λ file t f. (100, f);
  unlink = λ file f. f;
  fresh_ssl = λ rows. 9;
  slot_ssl = λ rows. 0;
  fresh_switch = λ rows. 8;
  slot_switch = λ rows. 0;
  is_blank = λ n. false;
  datadir = codes "/etc/ofc";
}

abbrev row : Ssl
row = record {
  uuid = 1;
  certificate = codes "/etc/ofc/cert.pem";
  private_key = codes "/etc/ofc/key.pem";
  ca_cert = codes "/etc/ofc/ca_cert.pem";
  external_ids =
      smap_replace (smap_replace smap_init resid_own (codes "mine")) resid_ext (codes "theirs");
}

abbrev linked_switch : Switch
linked_switch = record { uuid = 2; ssl = some 1 }

abbrev certs : Certs Disk
certs = record { ssls = row ∷ []; switches = linked_switch ∷ []; files = tt }

abbrev mine : Node
mine = el "owned-certificate" (leaf "resource-id" "mine" ∷ [])

abbrev theirs : Node
theirs = el "external-certificate" (leaf "resource-id" "theirs" ∷ [])

row_found : find_ssl resid_own (some (codes "mine")) (row ∷ []) ≡ ok row
unfolding find_ssl first_ssl of_config.Base.text_eq
row_found = refl

key_of_mine : get_key system.is_blank (above mine) "resource-id" ≡ ok (some (codes "mine"))
unfolding get_key
key_of_mine = refl

key_of_theirs : get_key system.is_blank (above theirs) "resource-id" ≡ ok (some (codes "theirs"))
unfolding get_key
key_of_theirs = refl

del_both_certificates_example :
    (txn_del_external_certificate system
        (some theirs)
        (txn_del_owned_certificate system
          (some mine)
          (holding system (row ∷ []) (linked_switch ∷ []) tt)).1
      ≡ (
        ok tt,
        holding system [] (unlinked_first system linked_switch []) (no_own_files system tt),
      ))
    × (txn_del_owned_certificate system
          (some mine)
          (txn_del_external_certificate system
            (some theirs)
            (holding system (row ∷ []) (linked_switch ∷ []) tt)).1
        ≡ (
          ok tt,
          holding system [] (unlinked_first system linked_switch []) (no_ext_file system tt),
        ))
del_both_certificates_example =
    del_both_certificates system mine theirs (codes "mine") (codes "theirs") row linked_switch [] tt
      key_of_mine key_of_theirs refl refl
