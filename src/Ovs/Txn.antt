-- ===== src/Ovs/Txn.antt =====
-- The handler of server/ovs-data.c during a transaction, and the way its functions run: each reads
-- and writes the rows, and ends with a result. What was written before an error stays written.
use of_config.Base.{Option, none, some, List, [], ◌∷◌, ◌++◌}
use of_config.Error.{Result, ok, fail, fault, NcErr, nc_err_new, op_failed}
use of_config.Ovs.Db.{Uuid, Db}
use of_config.Ovs.Idl.{Call, Column, Table, set_column, insert_row, delete_row}
use of_config.Ovs.Interface.{Idl}

-- The rows, and the calls of the IDL so far.
pub record Ovsdb : Type 0 where
  pub db : Db
  pub issued : List Call

abbrev pub Txn : Type 0 → Type 0
Txn A = Ovsdb → Result A × Ovsdb

module _ {A B : Type 0} where
  abbrev pub continue : Result A → (A → Txn B) → Txn B
  continue (ok a) k s = k a s
  continue (fail e) k s = (fail e, s)
  continue fault k s = (fault, s)

  infixl 5 ◌>>=◌
  abbrev pub ◌>>=◌ : Txn A → (A → Txn B) → Txn B
  ◌>>=◌ m k s = let (r, s') = m s in continue r k s'

infixl 5 ◌>>◌
abbrev pub ◌>>◌ : {B : Type 0} → Txn (Unit {0}) → Txn B → Txn B
m >> k = m >>= λ _. k

module _ {A : Type 0} where
  abbrev pub pure : A → Txn A
  pure a s = (ok a, s)

  abbrev pub raise : NcErr → Txn A
  raise e s = (fail (some e), s)

  abbrev pub crash : Txn A
  crash s = (fault, s)

  abbrev pub gets : (Db → A) → Txn A
  gets f s = (ok (f s.db), s)

  -- A pointer that is followed without a check.
  abbrev pub deref : Option A → Txn A
  deref none = crash
  deref (some a) = pure a

  -- `if (!p) { *e = ...; return EXIT_FAILURE; }`
  abbrev pub or_raise : Option A → NcErr → Txn A
  or_raise none e = raise e
  or_raise (some a) e = pure a

  abbrev pub lift : Result A → Txn A
  lift r s = (r, s)

abbrev pub invalid_input : NcErr
invalid_input = nc_err_new op_failed

module _ ⦃idl : Idl⦄ where
  abbrev pub issue : Call → Txn (Unit {0})
  issue c s = (ok tt, record { db = idl.write s.db c; issued = s.issued ++ c ∷ [] })

  abbrev pub set : Column → Txn (Unit {0})
  set c = issue (set_column c)

  abbrev pub insert : Table → Txn Uuid
  insert t = do u ← gets idl.fresh; issue (insert_row t); pure u

  abbrev pub delete : Table → Uuid → Txn (Unit {0})
  delete t u = issue (delete_row t u)
