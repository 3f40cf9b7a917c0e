-- ===== src/Ovs/Controllers/InPlace.antt =====
-- The edits of a controller's target that are made in place: `txn_mod_contr_target` of
-- server/ovs-data.c.
use of_config.Base.{Text, Option, none, some, ◌≡◌, refl, Option-cases, inl, inr}
use of_config.Ovs.Db.{Controller}
use of_config.Ovs.Interface.{Idl}
use of_config.Ovs.Txn.{Ovsdb}
use of_config.Ovs.Controllers.{
  find_controller, overwrite, protocol_bytes, hide_port, mod_port, mod_protocol,
  txn_mod_contr_target,
}

module _ ⦃idl : Idl⦄ where
  mod_protocol_issues :
      (c : Controller) (value : Option Text) (s : Ovsdb)
      → (mod_protocol c value s).1.issued ≡ s.issued
  mod_protocol_issues c value s = elim (Option-cases (overwrite (protocol_bytes value) c.target)) [
    | inl short ↦ rw short refl
    | inr (t, e) ↦ rw e refl
  ]

  mod_port_issues : (c : Controller) (s : Ovsdb) → (mod_port c none s).1.issued ≡ s.issued
  mod_port_issues c s = elim (Option-cases (hide_port c.target)) [
    | inl no_colon ↦ rw no_colon refl
    | inr (t, e) ↦ rw e refl
  ]

  -- Setting or deleting a controller's protocol, and deleting its port, makes no call of the database
  -- library, whatever the controller and the value: the change stays in the row's memory.
  pub txn_mod_contr_target-issued :
      (contr_id : Text) (value : Option Text) (s : Ovsdb)
      → ((txn_mod_contr_target (some contr_id) (some "protocol") value s).1.issued ≡ s.issued)
        × ((txn_mod_contr_target (some contr_id) (some "port") none s).1.issued ≡ s.issued)
  unfolding txn_mod_contr_target
  txn_mod_contr_target-issued contr_id value s =
      elim (Option-cases (find_controller contr_id s.db)) [
        | inl missing ↦ rw missing (refl, refl)
        | inr (c, found) ↦ rw found (mod_protocol_issues c value s, mod_port_issues c s)
      ]
