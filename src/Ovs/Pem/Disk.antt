-- ===== src/Ovs/Pem/Disk.antt =====
-- The files of server/ovs-data.c that `write_cert` and the writer of the private key leave.
use of_config.Base.{
  ltb, Text, codes, true, false, Option, some, List, [], ◌∷◌, ◌++◌, length, ◌≡◌, refl, ap, ◌∙◌,
  arith, text_eq, append_assoc,
}
use of_config.Error.{ok}
use of_config.Ovs.Certificates.{Certs, System, append_all, write_cert, write_key, path}
use of_config.Ovs.Certificates.Both.{uuid_eq_self}
use of_config.Ovs.Pem.Printed.{
  KeyType, of_rsa, of_dsa, word, certificate_begin, certificate_end, certificate_file, key_file,
  rsa, dsa,
}

-- A disk that takes what it is given, and its files as they are read.
pub record Disk {F : Type 0} (sys : System F) : Type 0 where
  pub read : F → Text → Option Text
  pub created : (p : Text) (f : F) → (sys.creat p f).0 ≡ true
  pub left_empty : (p : Text) (f : F) → read (sys.creat p f).1 p ≡ some []
  pub written : (p t : Text) (f : F) → (sys.write p t f).0 ≡ length t
  pub appended :
      (p t : Text) (f : F) {x : Text}
      → read f p ≡ some x
      → read (sys.write p t f).1 p ≡ some (x ++ t)
  pub created_aside :
      (p q : Text) (f : F) → text_eq p q ≡ false → read (sys.creat p f).1 q ≡ read f q
  pub written_aside :
      (p q t : Text) (f : F) → text_eq p q ≡ false → read (sys.write p t f).1 q ≡ read f q

-- The texts in one.
abbrev pub one_text : List Text → Text → Text
one_text [] last = last
one_text (t ∷ ts) last = t ++ one_text ts last

text_eq-prefixed : (d a b : Text) → text_eq (d ++ a) (d ++ b) ≡ text_eq a b
unfolding text_eq
text_eq-prefixed [] a b = refl
text_eq-prefixed (c ∷ d) a b = rw (uuid_eq_self c) (text_eq-prefixed d a b)

names_differ : text_eq (codes "/key.pem") (codes "/cert.pem") ≡ false
unfolding text_eq
names_differ = refl

module _ {F : Type 0} (sys : System F) (disk : Disk sys) where
  -- The files after some writes to one of them.
  abbrev pub puts : Text → List Text → Text → F → F
  puts file [] last f = (sys.write file last f).1
  puts file (t ∷ ts) last f = puts file ts last (sys.write file t f).1

  pub append_all-lem :
      (file : Text) (ts : List Text) (last : Text) (s : Certs F)
      → append_all sys file ts last (length last) s
        ≡ (ok tt, record s { files = puts file ts last s.files })
  unfolding append_all
  append_all-lem file [] last s =
      let enough : ltb (sys.write file last s.files).0 (length last) ≡ false =
        rw (disk.written file last s.files) (ground arith) in
      rw enough refl
  append_all-lem file (t ∷ ts) last s =
      append_all-lem file ts last (record s { files = (sys.write file t s.files).1 })

  pub puts-read :
      (file : Text) (ts : List Text) (last : Text) (f : F) (x : Text)
      → disk.read f file ≡ some x
      → disk.read (puts file ts last f) file ≡ some (x ++ one_text ts last)
  puts-read file [] last f x e = disk.appended file last f e
  puts-read file (t ∷ ts) last f x e =
      puts-read file ts last (sys.write file t f).1 (x ++ t) (disk.appended file t f e)
      ∙ ap some (append_assoc x t (one_text ts last))

  puts-aside :
      (file other : Text) (ts : List Text) (last : Text) (f : F)
      → text_eq file other ≡ false
      → disk.read (puts file ts last f) other ≡ disk.read f other
  puts-aside file other [] last f d = disk.written_aside file other last f d
  puts-aside file other (t ∷ ts) last f d =
      puts-aside file other ts last (sys.write file t f).1 d ∙ disk.written_aside file other t f d

  -- The files with a certificate in one of them.
  abbrev pub certificate_written : Text → Text → F → F
  certificate_written cert file f =
      puts file (certificate_begin ∷ cert ∷ []) certificate_end (sys.creat file f).1

  pub write_cert-lem :
      (cert file : Text) (s : Certs F)
      → write_cert sys cert file s
        ≡ (ok tt, record s { files = certificate_written cert file s.files })
  unfolding write_cert
  write_cert-lem cert file s = rw (disk.created file s.files) (
      append_all-lem file (certificate_begin ∷ cert ∷ []) certificate_end
        (record s { files = (sys.creat file s.files).1 }))

  pub certificate_written-read :
      (cert file : Text) (f : F)
      → disk.read (certificate_written cert file f) file ≡ some (certificate_file cert)
  certificate_written-read cert file f =
      puts-read file (certificate_begin ∷ cert ∷ []) certificate_end (sys.creat file f).1 []
        (disk.left_empty file f)

  abbrev texts_of_key : Text → Text → List Text
  texts_of_key type key =
      codes "-----BEGIN "
      ∷ type
      ∷ codes " PRIVATE KEY-----\n"
      ∷ key
      ∷ codes "\n-----END "
      ∷ type
      ∷ []

  abbrev pub key_written : Text → Text → F → F
  key_written type key f =
      puts (path sys "/key.pem") (texts_of_key type key) (codes " PRIVATE KEY-----")
        (sys.creat (path sys "/key.pem") f).1

  pub write_key-lem :
      (type key : Text) (s : Certs F)
      → write_key sys type key s ≡ (ok tt, record s { files = key_written type key s.files })
  unfolding write_key
  write_key-lem type key s = rw (disk.created (path sys "/key.pem") s.files) (
      append_all-lem (path sys "/key.pem") (texts_of_key type key) (codes " PRIVATE KEY-----")
        (record s { files = (sys.creat (path sys "/key.pem") s.files).1 }))

  pub key_written-read :
      (k : KeyType) (key : Text) (f : F)
      → disk.read (key_written (word k) key f) (path sys "/key.pem") ≡ some (key_file (word k) key)
  key_written-read of_rsa key f =
      puts-read (path sys "/key.pem") (texts_of_key rsa key) (codes " PRIVATE KEY-----")
        (sys.creat (path sys "/key.pem") f).1 [] (disk.left_empty (path sys "/key.pem") f)
  key_written-read of_dsa key f =
      puts-read (path sys "/key.pem") (texts_of_key dsa key) (codes " PRIVATE KEY-----")
        (sys.creat (path sys "/key.pem") f).1 [] (disk.left_empty (path sys "/key.pem") f)

  -- Writing the key leaves the certificate as it is.
  pub key_written-aside :
      (type key : Text) (f : F)
      → disk.read (key_written type key f) (path sys "/cert.pem")
        ≡ disk.read f (path sys "/cert.pem")
  key_written-aside type key f =
      let apart = text_eq-prefixed sys.datadir (codes "/key.pem") (codes "/cert.pem") in
      puts-aside (path sys "/key.pem") (path sys "/cert.pem") (texts_of_key type key)
        (codes " PRIVATE KEY-----") (sys.creat (path sys "/key.pem") f).1 (apart ∙ names_differ)
      ∙ disk.created_aside (path sys "/key.pem") (path sys "/cert.pem") f (apart ∙ names_differ)
