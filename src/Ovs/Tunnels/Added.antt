-- ===== src/Ovs/Tunnels/Added.antt =====
-- What a successful `txn_add_port_tunnel` of server/ovs-data.c leaves in the row of the port's interface.
use of_config.Base.{
  String, Text, codes, true, Bool-cases, some, List, find?, text_eq, if◌then◌else◌, ◌==◌, ◌≡◌, refl,
  ap, sym, ◌∙◌, inl, inr, ==_iff,
}
use of_config.Error.{Result, ok, fail, fault, Result-cases}
use of_config.Xml.{Node, name, named, children}
use of_config.Ovs.Db.{Smap, smap_replace, Interface, Db}
use of_config.Ovs.Idl.{after_set, change, interface_type, interface_options, interface_external_ids}
use of_config.Ovs.Interface.{Idl}
use of_config.Ovs.Rows.{find?-change}
use of_config.Ovs.Txn.{Ovsdb}
use of_config.Ovs.Ports.{find_interface}
use of_config.Ovs.Tunnels.{tunnel_options, tunnel_type, txn_add_port_tunnel}
use of_config.Ovs.Tunnels.Options.{or_else, first_given, tunnel_options_lem}

-- The row that a search by name finds, after a change of that row which keeps names.
find_changed :
    (x : Text) (i : Interface) (f : Interface → Interface) (l : List Interface)
    → ((r : Interface) → (f r).name ≡ r.name)
    → find? (λ r. text_eq x r.name) l ≡ some i
    → find? (λ r. text_eq x r.name) (change (λ r. r.uuid) i.uuid f l) ≡ some (f i)
find_changed x i f l keeps found =
    let own : (i.uuid == i.uuid) ≡ true = (==_iff i.uuid i.uuid).1 refl in
    find?-change (λ r. r.uuid) (λ r. text_eq x r.name) i.uuid f l (λ r. ap (text_eq x) (keeps r))
    ∙ rw (found, own) refl

-- The rows after the three columns are set, and the row of the interface.
abbrev three_set : Db → Interface → Text → Smap → Smap → Db
three_set d i t o e =
    after_set (after_set (after_set d (interface_type i.uuid t)) (interface_options i.uuid o))
      (interface_external_ids i.uuid e)

abbrev tunnelled : Interface → Text → Smap → Smap → Interface
tunnelled i t o e = record i { type = t; options = o; external_ids = e }

find_interface-three_set :
    (x : Text) (d : Db) (i : Interface) (t : Text) (o e : Smap)
    → find_interface x d ≡ some i
    → find_interface x (three_set d i t o e) ≡ some (tunnelled i t o e)
unfolding find_interface
find_interface-three_set x d i t o e found =
    find_changed x (record i { type = t; options = o }) (λ r. record r { external_ids = e }) _
      (λ r. refl)
      (find_changed x (record i { type = t }) (λ r. record r { options = o }) _ (λ r. refl)
        (find_changed x i (λ r. record r { type = t }) d.interfaces (λ r. refl) found))

by_kind : (n : Node) → tunnel_type n ≡ codes (if named n "vxlan-tunnel" then "vxlan" else "gre")
by_kind n = elim (Bool-cases (named n "vxlan-tunnel")) [ inl e ↦ rw e refl | inr e ↦ rw e refl ]

module _ ⦃idl : Idl⦄ where
  added :
      (x : Text) (n : Node) (s s' : Ovsdb) (i : Interface)
      → find_interface x s.db ≡ some i
      → txn_add_port_tunnel (some x) (some n) s ≡ (ok tt, s')
      → (o : Smap) × (tunnel_options i.options (children n) ≡ ok o)
        × (s'.db
            ≡ three_set s.db i
                (tunnel_type n)
                o
                (smap_replace i.external_ids "tunnel_type" (codes (name n))))
  unfolding txn_add_port_tunnel
  added x n s s' i found run = elim (Result-cases (tunnel_options i.options (children n))) [
    | inl (o, e) ↦ (o, e, ap (λ r. r.1.db) (sym run) ∙ simp (found, e, idl.write-set))
    | inr (inl (m, e)) ↦
        let bad : ◌≡◌ {A = Result (Unit {0}) × Ovsdb} (fail m, s) (ok tt, s') =
          rw (found, e) at run in
        cc
    | inr (inr e) ↦
        let bad : ◌≡◌ {A = Result (Unit {0}) × Ovsdb} (fault, s) (ok tt, s') =
          rw (found, e) at run in
        cc
  ]

  -- Where adding a tunnel to a port succeeds, the port's interface is found afterwards by the same name,
  -- with the type `vxlan` for a `vxlan-tunnel` and `gre` for any other, with the element's name under
  -- `tunnel_type`, and each option has the value that it had before, or else that of the first child
  -- whose name gives it one, or else none.
  pub txn_add_port_tunnel_lem :
      (x : Text) (n : Node) (s s' : Ovsdb) (i : Interface)
      → find_interface x s.db ≡ some i
      → txn_add_port_tunnel (some x) (some n) s ≡ (ok tt, s')
      → (i' : Interface) × (find_interface x s'.db ≡ some i')
        × (i'.type ≡ codes (if named n "vxlan-tunnel" then "vxlan" else "gre"))
        × (i'.external_ids "tunnel_type" ≡ some (codes (name n)))
        × ((k : String) → i'.options k ≡ or_else (i.options k) (first_given k (children n)))
  txn_add_port_tunnel_lem x n s s' i found run =
      let (o, read, rows) = added x n s s' i found run in
      let e = smap_replace i.external_ids "tunnel_type" (codes (name n)) in
      (
        tunnelled i (tunnel_type n) o e,
        rw rows (find_interface-three_set x s.db i (tunnel_type n) o e found),
        by_kind n,
        refl,
        λ k. tunnel_options_lem i.options o (children n) k read,
      )
