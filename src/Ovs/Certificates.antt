-- ===== src/Ovs/Certificates.antt =====
-- The certificates of server/ovs-data.c: one row of OVSDB's table SSL holds the server's own certificate
-- with its key and the external one, each in a file. `find_ssl`, `write_cert`, and what the functions
-- share that create, change and delete both kinds.
pub mod Add
pub mod Change
pub mod Cleared
pub mod Both
use of_config.Base.{
  ℕ, ltb, String, Text, codes, Bool, false, not, Option, none, some, List, [], ◌∷◌, ◌++◌,
  if◌then◌else◌, str_eq, text_eq,
}
use of_config.Error.{
  Result, ok, fail, fault, NcErr, nc_err_new, op_failed, missing_elem, bad_element_msg,
}
use of_config.Xml.{Node}
use of_config.Ovs.Db.{Uuid, Smap, smap_init}
use of_config.Ovs.Idl.{change, without, insert_at}

-- Rows of the table SSL, and the column `ssl` of Open_vSwitch.
pub record Ssl : Type 0 where
  pub uuid : Uuid
  pub certificate : Text
  pub private_key : Text
  pub ca_cert : Text
  pub external_ids : Smap

pub record Switch : Type 0 where
  pub uuid : Uuid
  pub ssl : Option Uuid

pub record Certs (F : Type 0) : Type 0 where
  pub ssls : List Ssl
  pub switches : List Switch
  pub files : F

-- `creat`, `write` and `unlink` on the files F, a failed `write` as one of no bytes; the UUID and the
-- place of a row that is inserted; `xmlIsBlankNode`; OFC_DATADIR.
pub record System (F : Type 0) : Type 0 where
  pub creat : Text → F → Bool × F
  pub write : Text → Text → F → ℕ × F
  pub unlink : Text → F → F
  pub fresh_ssl : List Ssl → Uuid
  pub slot_ssl : List Ssl → ℕ
  pub fresh_switch : List Switch → Uuid
  pub slot_switch : List Switch → ℕ
  pub is_blank : Node → Bool
  pub datadir : Text

abbrev pub resid_own : String
resid_own = "ofc_resource_id_own"

abbrev pub resid_ext : String
resid_ext = "ofc_resource_id_ext"

abbrev pub blank_ssl : Uuid → Ssl
blank_ssl u = record {
  uuid = u;
  certificate = [];
  private_key = [];
  ca_cert = [];
  external_ids = smap_init;
}

-- The messages as they are: each names the other kind.
abbrev pub no_ssl : String → NcErr
no_ssl type = bad_element_msg "resource_id" (
    if str_eq type resid_own
    then "Could not find external-certificate with the specified resource-id"
    else "Could not find owned-certificate with the specified resource-id")

-- `xmlStrEqual` with what `smap_get` returns
abbrev pub is_value : Option Text → Text → Bool
is_value none t = false
is_value (some v) t = text_eq t v

unfoldable pub first_ssl : String → Text → List Ssl → Option Ssl
first_ssl type rid [] = none
first_ssl type rid (r ∷ rest) =
    let later = first_ssl type rid rest in
    if is_value (r.external_ids type) rid then some r else later

abbrev pub ssl_or_error : Option Ssl → NcErr → Result Ssl
ssl_or_error none e = fail (some e)
ssl_or_error (some r) e = ok r

unfoldable pub find_ssl : String → Option Text → List Ssl → Result Ssl
find_ssl type none rows = fail none
find_ssl type (some rid) rows = ssl_or_error (first_ssl type rid rows) (no_ssl type)

abbrev pub Step : Type 0 → Type 0 → Type 0
Step F A = Certs F → Result A × Certs F

module _ {F A B : Type 0} where
  abbrev pub continue : Result A → (A → Step F B) → Step F B
  continue (ok a) k s = k a s
  continue (fail e) k s = (fail e, s)
  continue fault k s = (fault, s)

  infixl 5 ◌>>=◌
  abbrev pub ◌>>=◌ : Step F A → (A → Step F B) → Step F B
  ◌>>=◌ m k s = let (r, s') = m s in continue r k s'

infixl 5 ◌>>◌
abbrev pub ◌>>◌ : {F B : Type 0} → Step F (Unit {0}) → Step F B → Step F B
m >> k = m >>= λ _. k

module _ {F A : Type 0} where
  abbrev pub answer : Result A → Step F A
  answer r s = (r, s)

  abbrev pub pure : A → Step F A
  pure a s = (ok a, s)

  abbrev pub raise : NcErr → Step F A
  raise e s = (fail (some e), s)

  abbrev pub reads : (Certs F → A) → Step F A
  reads f s = (ok (f s), s)

module _ {F : Type 0} where
  -- ovsrec_ssl_set_<column>, ovsrec_open_vswitch_set_ssl and the deletion of a row
  abbrev pub set_ssl : Uuid → (Ssl → Ssl) → Step F (Unit {0})
  set_ssl u f s = (ok tt, record s { ssls = change (λ r. r.uuid) u f s.ssls })

  abbrev pub set_switch_ssl : Uuid → Option Uuid → Step F (Unit {0})
  set_switch_ssl u v s =
      (ok tt, record s { switches = change (λ r. r.uuid) u (λ r. record r { ssl = v }) s.switches })

  abbrev pub delete_ssl : Uuid → Step F (Unit {0})
  delete_ssl u s = (ok tt, record s { ssls = without (λ r. r.uuid) u s.ssls })

abbrev pub NodeOp : Type 0 → Type 0
NodeOp F = Option Node → Step F (Unit {0})

abbrev pub missing_leaf : String → NcErr
missing_leaf x = record (nc_err_new missing_elem) { info_badelem = some x }

abbrev pub need : Option Text → String → Result Text
need none x = fail (some (missing_leaf x))
need (some t) x = ok t

module _ {F : Type 0} (sys : System F) where
  abbrev pub path : String → Text
  path x = sys.datadir ++ codes x

  abbrev pub create_file : Text → Step F (Unit {0})
  create_file file s =
      let done = sys.creat file s.files in
      if done.0
      then (ok tt, record s { files = done.1 })
      else (fail (some (nc_err_new op_failed)), record s { files = done.1 })

  -- all but the last result are not looked at
  abbrev pub append : Text → Text → Step F ℕ
  append file t s = let done = sys.write file t s.files in (ok done.0, record s { files = done.1 })

  unfoldable pub append_all : Text → List Text → Text → ℕ → Step F (Unit {0})
  append_all file [] last n = do
    written ← append file last
    if ltb written n then raise (nc_err_new op_failed) else pure tt
  append_all file (t ∷ rest) last n = do written ← append file t; append_all file rest last n

  abbrev pub unlink_file : Text → Step F (Unit {0})
  unlink_file file s = (ok tt, record s { files = sys.unlink file s.files })

  unfoldable pub write_cert : Text → Text → Step F (Unit {0})
  write_cert cert file = do
    create_file file
    append_all file (codes "-----BEGIN CERTIFICATE-----\n" ∷ cert ∷ [])
        (codes "\n-----END CERTIFICATE-----") 26

  unfoldable pub write_key : Text → Text → Step F (Unit {0})
  write_key key_type key_data = do
    create_file (path "/key.pem")
    append_all (path "/key.pem")
        (codes "-----BEGIN "
          ∷ key_type
          ∷ codes " PRIVATE KEY-----\n"
          ∷ key_data
          ∷ codes "\n-----END "
          ∷ key_type
          ∷ [])
        (codes " PRIVATE KEY-----") 17

  abbrev pub insert_ssl : Step F Uuid
  insert_ssl s =
      let u = sys.fresh_ssl s.ssls in
      (ok u, record s { ssls = insert_at (sys.slot_ssl s.ssls) (blank_ssl u) s.ssls })

  abbrev pub insert_switch : Step F Uuid
  insert_switch s =
      let u = sys.fresh_switch s.switches in
      (
        ok u,
        record s {
          switches =
              insert_at (sys.slot_switch s.switches) (record { uuid = u; ssl = none }) s.switches;
        },
      )
