-- ===== src/Tests/Stored.antt =====
-- A certificate with its RSA key, added to an empty table SSL on a disk in memory, and printed from there.
use of_config.Base.{
  Text, codes, true, false, Option, none, some, [], ◌∷◌, ◌++◌, if◌then◌else◌, length, text_eq,
}
use of_config.Xml.{Node}
use of_config.Ovs.Certificates.{System}
use of_config.Ovs.Pem.Disk.{Disk}
use of_config.Tests.Sample.{el, leaf}

abbrev Files : Type 0
Files = Text → Option Text

abbrev extended : Option Text → Text → Option Text
extended none t = none
extended (some x) t = some (x ++ t)

abbrev memory : System Files
memory = record {
  creat = λ p f. (true, λ q. if text_eq p q then some [] else f q);
  write = λ p t f. (length t, λ q. if text_eq p q then extended (f q) t else f q);
  unlink = λ p f q. if text_eq p q then none else f q;
  fresh_ssl = λ rows. 9;
  slot_ssl = λ rows. 0;
  fresh_switch = λ rows. 8;
  slot_switch = λ rows. 0;
  is_blank = λ n. false;
  datadir = codes "/etc/ofc";
}

abbrev owned : Node
owned = el "owned-certificate" (
    leaf "resource-id" "mine"
    ∷ leaf "certificate" "MIIB"
    ∷ el "private-key" (leaf "key-type" "RSA" ∷ leaf "key-data" "MIIC" ∷ [])
    ∷ [])
