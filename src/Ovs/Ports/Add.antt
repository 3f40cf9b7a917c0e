-- ===== src/Ovs/Ports/Add.antt =====
-- Linking a port to a bridge and taking it off again: `txn_add_bridge_port` and
-- `txn_del_bridge_port` of server/ovs-data.c.
use mathlib.Core.Path.{fun_ext, ap₂}
use of_config.Base.{
  Text, true, some, List, [], ◌∷◌, ◌++◌, others, count_if, others_of_none, text_eq, ◌≡◌, refl, ap,
  ◌∙◌, ==_iff, ◌==◌, append-nil, find?-passes, others-append,
}
use of_config.Error.{ok}
use of_config.Ovs.Db.{Uuid, Bridge, Port, port_at}
use of_config.Ovs.Idl.{Call, bridge_ports, after_set}
use of_config.Ovs.Interface.{Idl}
use of_config.Ovs.Rows.{find?-change, change-change, change_of_only, IsOnly, count_if-append}
use of_config.Ovs.Txn.{Ovsdb, set}
use of_config.Ovs.Ports.{find_bridge, find_port, txn_add_bridge_port, txn_del_bridge_port}
use of_config.Ovs.Ports.Remove.{is_named, AllThere, txn_del_bridge_port_lem}

abbrev with_port : Bridge → Port → Bridge
with_port b p = record b { ports = b.ports ++ p.uuid ∷ [] }

module _ ⦃idl : Idl⦄ (br_name port_name : Text) (s : Ovsdb) (b : Bridge) (p : Port)
    (bridge_found : find_bridge br_name s.db ≡ some b)
    (port_found : find_port port_name s.db ≡ some p) where
  -- Linking a port that exists to a bridge that exists sets the bridge's ports, the new one last, and
  -- writes nothing else.
  pub txn_add_bridge_port_lem :
      txn_add_bridge_port (some br_name) (some port_name) s
      ≡ set (bridge_ports b.uuid (b.ports ++ p.uuid ∷ [])) s
  unfolding txn_add_bridge_port
  txn_add_bridge_port_lem = rw (bridge_found, port_found) refl

  module _ (only : IsOnly (λ (r : Bridge). r.uuid) b s.db.bridges)
      (there : port_at p.uuid s.db ≡ some p) (all_there : AllThere s.db b.ports)
      (not_yet : count_if (is_named s.db port_name) b.ports ≡ 0) where
    abbrev linked : Ovsdb
    linked = (set (bridge_ports b.uuid (b.ports ++ p.uuid ∷ [])) s).1

    db-linked : linked.db ≡ after_set s.db (bridge_ports b.uuid (b.ports ++ p.uuid ∷ []))
    db-linked = idl.write-set s.db _

    found-linked : find_bridge br_name linked.db ≡ some (with_port b p)
    unfolding find_bridge
    found-linked =
        let moved =
          find?-change (λ (r : Bridge). r.uuid) (λ r. text_eq br_name r.name) b.uuid
            (λ r. record r { ports = b.ports ++ p.uuid ∷ [] }) s.db.bridges (λ r. refl) in
        let same : (b.uuid == b.uuid) ≡ true = (==_iff _ _).1 refl in
        rw (db-linked, moved, bridge_found, same) refl

    named-linked : (x : Text) (u : Uuid) → is_named linked.db x u ≡ is_named s.db x u
    named-linked x u = rw db-linked refl

    named_port : is_named s.db port_name p.uuid ≡ true
    unfolding find_port
    named_port =
        rw (there, is_named) (find?-passes (λ q. text_eq port_name q.name) s.db.ports port_found)

    named-linked_fun : is_named linked.db port_name ≡ is_named s.db port_name
    named-linked_fun = fun_ext (named-linked port_name)

    count-linked : count_if (is_named linked.db port_name) (b.ports ++ p.uuid ∷ []) ≡ 1
    count-linked =
        rw (named-linked_fun, count_if-append _ b.ports (p.uuid ∷ []), not_yet, named_port) refl

    others-linked : others (is_named linked.db port_name) (b.ports ++ p.uuid ∷ []) ≡ b.ports
    others-linked =
        let left : others (is_named s.db port_name) (p.uuid ∷ []) ≡ [] = rw named_port refl in
        ap (λ q. others q (b.ports ++ p.uuid ∷ [])) named-linked_fun
        ∙ others-append (is_named s.db port_name) b.ports (p.uuid ∷ [])
        ∙ ap₂ (λ xs ys. xs ++ ys) (others_of_none _ b.ports not_yet) left
        ∙ append-nil b.ports

    AllThere-linked : (us : List Uuid) → AllThere s.db us → AllThere linked.db us
    AllThere-linked [] h = tt
    AllThere-linked (u ∷ us) h = (rw db-linked h.0, AllThere-linked us h.1)

    there_too : (us : List Uuid) → AllThere s.db us → AllThere s.db (us ++ p.uuid ∷ [])
    there_too [] h = ((λ e. cc (e, there)), tt)
    there_too (u ∷ us) h = (h.0, there_too us h.1)

    unlinked : Ovsdb
    unlinked = (set (bridge_ports b.uuid b.ports) linked).1

    del-linked :
        txn_del_bridge_port (some br_name) (some port_name) linked
        ≡ set (bridge_ports b.uuid b.ports) linked
    del-linked =
        rw
          (
            txn_del_bridge_port_lem br_name port_name linked (with_port b p) found-linked
                (AllThere-linked _ (there_too b.ports all_there)),
            count-linked,
            others-linked,
          )
          refl

    restored : (idl.write linked.db (Call.set_column (bridge_ports b.uuid b.ports))) ≡ s.db
    restored =
        let twice =
          change-change (λ (r : Bridge). r.uuid) b.uuid
            (λ r. record r { ports = b.ports ++ p.uuid ∷ [] }) (λ r. record r { ports = b.ports })
            s.db.bridges (λ r. refl) in
        let same =
          change_of_only (λ (r : Bridge). r.uuid) b (λ r. record r { ports = b.ports }) s.db.bridges
            only refl in
        rw (idl.write-set linked.db _, db-linked, twice, same) refl

    -- For a bridge and a port that exist, linking the port to the bridge and taking it off again
    -- succeeds both times and leaves the rows as they were, if the bridge's references lead to rows,
    -- none of them to a port of that name, the port's own UUID leads to it, and no other bridge has the
    -- bridge's UUID.
    pub del-add_bridge_port :
        ((txn_add_bridge_port (some br_name) (some port_name) s).0 ≡ ok tt)
        × ((txn_del_bridge_port
              (some br_name)
              (some port_name)
              (txn_add_bridge_port (some br_name) (some port_name) s).1).0
            ≡ ok tt)
        × ((txn_del_bridge_port
              (some br_name)
              (some port_name)
              (txn_add_bridge_port (some br_name) (some port_name) s).1).1.db
            ≡ s.db)
    del-add_bridge_port =
        rw txn_add_bridge_port_lem (refl, rw del-linked refl, rw del-linked restored)
