-- ===== src/Edit/Live.antt =====
-- Applying an edit to the running configuration: what `edit_delete` and `edit_create` of
-- server/edit-config.c look up in the document, and the walk that both make over a node and the nodes
-- below it. Which function of server/ovs-data.c a node leads to is an `Action`, in the children of
-- this module.
pub mod Delete
pub mod Create
pub mod Unlinks
pub mod Root
use of_config.Base.{
  ℕ, zero, suc, String, Text, Bool, true, false, ◌&&◌, Option, none, some, List, [], ◌∷◌, ◌++◌,
  if◌then◌else◌, find?,
}
use of_config.Error.{Result, ok, fail, fault}
use of_config.Xml.{
  Node, Forest, nil, cons, element, text, other, nodes, children, is_element, named, first_child,
  content_of, Doc,
}
use of_config.Ovs.Txn.{Ovsdb, Txn}
use of_config.Edit.Zipper.{Frame, Zipper, wrap, level, siblings, frame_of}
use of_config.Edit.Apply.{Left}

-- The handler of OVSDB, `cs_id`, and the rest of what the server changes: the certificate files, the
-- kernel's interfaces, the switches.
pub record World (R : Type 0) : Type 0 where
  pub ovs : Ovsdb
  pub switch_id : Option Text
  pub rest : R

-- Calls of libxml2, of the kernel, and of the functions of server/ovs-data.c for certificates,
-- features of ports and OpenFlow.
pub record Outside (R : Type 0) : Type 0 where
  -- `xmlIsBlankNode` and `xmlNodeGetContent`
  pub is_blank : Node → Bool
  pub node_content : Node → Text
  pub dev_is_system : Text → Bool
  pub txn_del_all : World R → Result (Unit {0}) × World R
  pub txn_add_port : Node → World R → Result (Unit {0}) × World R
  pub add_port_advert : Option Text → Node → World R → Result (Unit {0}) × World R
  pub del_port_advert : Option Text → Node → World R → Result (Unit {0}) × World R
  pub of_mod_port_cfg : Option Text → String → Option Text → World R → Result (Unit {0}) × World R
  pub add_owned_certificate : Node → World R → Result (Unit {0}) × World R
  pub add_external_certificate : Node → World R → Result (Unit {0}) × World R
  pub del_owned_certificate : Node → World R → Result (Unit {0}) × World R
  pub del_external_certificate : Node → World R → Result (Unit {0}) × World R
  pub mod_own_cert_certificate : Option Text → Option Node → World R → Result (Unit {0}) × World R
  pub txn_mod_own_cert_key_type : Option Text → Option Node → World R → Result (Unit {0}) × World R
  pub txn_mod_own_cert_key_data : Option Text → Option Node → World R → Result (Unit {0}) × World R
  pub mod_ext_cert_certificate : Option Text → Option Node → World R → Result (Unit {0}) × World R

-- Server/ovs-data.c: `ofc_set_switchid`, whose result nobody looks at.
abbrev pub id_of : Option Node → Option Text → Option Text
id_of none old = old
id_of (some (text t)) old = some t
id_of (some (element x ns op f)) old = old
id_of (some (other x t)) old = old

unfoldable pub ofc_set_switchid : Option Node → Option Text → Option Text
ofc_set_switchid none old = none
ofc_set_switchid (some n) old = id_of (first_child n) old

-- A chain of `parent` pointers: a node, the document, or NULL.
pub data Ancestor : Type 0 where
  above : Node → Ancestor
  document : Doc → Ancestor
  missing : Ancestor

abbrev pub above_of : List Frame → List Node → ℕ → Ancestor
above_of [] kids zero = document kids
above_of [] kids (suc k) = missing
above_of (f ∷ ups) kids zero = above (wrap f kids)
above_of (f ∷ ups) kids (suc k) = above_of ups (level f kids) k

-- `node->parent` for 0, `node->parent->parent` for 1
abbrev pub parent_of : ℕ → Zipper → Ancestor
parent_of k z = above_of z.ups (siblings z) k

module _ (is_blank : Node → Bool) where
  abbrev pub key_in : Option Node → Option Text
  key_in none = none
  key_in (some c) = if is_blank c then none else content_of (some c)

  abbrev pub key_below : Option Node → Option Text
  key_below none = none
  key_below (some n) = key_in (first_child n)

  abbrev pub key_among : List Node → String → Option Text
  key_among kids x = key_below (find? (λ c. is_element c && named c x) kids)

  -- the name of a NULL parent is printed
  unfoldable pub get_key : Ancestor → String → Result (Option Text)
  get_key (above n) x = ok (key_among (children n) x)
  get_key (document d) x = ok (key_among d x)
  get_key missing x = fault

-- What is done with an element.
pub data Action (W : Type 0) : Type 0 where
  skip : Action W
  run : (W → Result (Unit {0}) × W) → Action W
  -- the same, and the node stays where it is
  return : (W → Result (Unit {0}) × W) → Action W
  -- `while (node->children)`
  descend : Action W
  -- the first child `advertised`, if there is one
  advertised : Action W

module _ {W : Type 0} where
  abbrev pub give_up : Result (Unit {0}) → Action W
  give_up r = run (λ w. (r, w))

  abbrev pub with_key : Result (Option Text) → (Option Text → Action W) → Action W
  with_key (ok k) act = act k
  with_key (fail e) act = give_up (fail e)
  with_key fault act = give_up fault

  abbrev pub with_keys :
      Result (Option Text)
      → Result (Option Text)
      → (Option Text → Option Text → Action W)
      → Action W
  with_keys key aux act = with_key key λ k. with_key aux λ a. act k a

  -- the loop over the children of `advertised`
  unfoldable pub each : (Node → W → Result (Unit {0}) × W) → List Node → W → Result (Unit {0}) × W
  each f [] w = (ok tt, w)
  each f (c ∷ rest) w =
      let done = f c w in
      elim done.0 [
        | ok u ↦ each f rest done.1
        | fail e ↦ (fail e, done.1)
        | fault ↦ (fault, done.1)
      ]

  -- `end:` the node goes if all went well
  abbrev pub gone_if_ok : Node → Result (Unit {0}) × W → Left × W
  gone_if_ok n (ok u, w) = ((ok tt, []), w)
  gone_if_ok n (fail e, w) = ((fail e, n ∷ []), w)
  gone_if_ok n (fault, w) = ((fault, n ∷ []), w)

  abbrev pub left_there : Node → Result (Unit {0}) × W → Left × W
  left_there n (r, w) = ((r, n ∷ []), w)

  abbrev pub emptied : Frame → Left × W → Left × W
  emptied f ((ok u, kids), w) = ((ok tt, []), w)
  emptied f ((fail e, kids), w) = ((fail e, wrap f kids ∷ []), w)
  emptied f ((fault, kids), w) = ((fault, wrap f kids ∷ []), w)

  abbrev pub around_left : List Node → List Node → Left × W → Left × W
  around_left before after ((r, l), w) = ((r, before ++ (l ++ after)), w)

  -- with the walks over the children, of which one at most is made
  abbrev pub perform : Action W → Node → Frame → (W → Left × W) → (W → Left × W) → W → Left × W
  perform skip n here all some_child w = ((ok tt, []), w)
  perform (run g) n here all some_child w = gone_if_ok n (g w)
  perform (return g) n here all some_child w = left_there n (g w)
  perform descend n here all some_child w = emptied here (all w)
  perform advertised n here all some_child w = emptied here (some_child w)

  -- `strip` is what happens to the attribute `operation` on the way.
  module _ (strip : Option Text → Option Text) (act : Zipper → Action W) where
    unfoldable mutual
      pub walk : List Frame → List Node → Node → List Node → W → Left × W
      walk ups before (text t) after w = ((ok tt, []), w)
      walk ups before (other x t) after w = ((ok tt, []), w)
      walk ups before (element x ns op f) after w =
          let z : Zipper = record {
            before = before;
            node = element x ns (strip op) f;
            after = after;
            ups = ups;
          } in
          let here = frame_of z x ns (strip op) in
          perform (act z) z.node here (λ v. walk_all (here ∷ ups) f v)
            (λ v. walk_advertised (here ∷ ups) [] f v) w

      pub walk_all : List Frame → Forest → W → Left × W
      walk_all ups nil w = ((ok tt, []), w)
      walk_all ups (cons c f) w =
          let first = walk ups [] c (nodes f) w in
          elim first.0.0 [
            | ok u ↦ walk_all ups f first.1
            | fail e ↦ around_left [] (nodes f) first
            | fault ↦ around_left [] (nodes f) first
          ]

      pub walk_advertised : List Frame → List Node → Forest → W → Left × W
      walk_advertised ups before nil w = ((ok tt, before), w)
      walk_advertised ups before (cons c f) w = elim (is_element c && named c "advertised") [
        | true ↦ around_left before (nodes f) (walk ups before c (nodes f) w)
        | false ↦ walk_advertised ups (before ++ c ∷ []) f w
      ]

    abbrev pub walk_at : Zipper → W → Left × W
    walk_at z w = walk z.ups z.before z.node z.after w

module _ {R : Type 0} where
  -- A function of the transaction.
  abbrev pub with_ovs : World R → Result (Unit {0}) × Ovsdb → Result (Unit {0}) × World R
  with_ovs w (r, o) = (r, record w { ovs = o })

  abbrev pub txn : Txn (Unit {0}) → Action (World R)
  txn m = run (λ w. with_ovs w (m w.ovs))

  abbrev pub put_id : Option Node → Action (World R)
  put_id n = run (λ w. (ok tt, record w { switch_id = ofc_set_switchid n w.switch_id }))
