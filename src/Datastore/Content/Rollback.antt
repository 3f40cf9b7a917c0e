-- ===== src/Datastore/Content/Rollback.antt =====
-- What `ofcds_rollback` of server/ofconfig-datastore.c restores.
use of_config.Base.{
  ap, sym, ◌∙◌, Text, Bool, true, false, Bool-cases, if◌then◌else◌, arith, Option, none, some, ◌∷◌,
  ◌≡◌, refl, List-cases, inl, inr,
}
use of_config.Error.{Result, ok, fail, fault, Result-cases}
use of_config.Datastore.Locks.{Datastore, startup, candidate}
use of_config.Datastore.Content.{
  wrong_place, Libxml, Running, Store, store_rollback, ofcds_copyconfig, ofcds_rollback, source_doc,
  put, read_config, dump_or_empty,
}

-- The two datastores that the server keeps itself.
pub data Local : Type 0 where
  at_startup at_candidate : Local

abbrev pub datastore : Local → Datastore
datastore at_startup = startup
datastore at_candidate = candidate

module _ {D W : Type 0} where
  abbrev pub contents : Local → Store D W → Option D
  contents at_startup s = s.gds_startup
  contents at_candidate s = s.gds_cand

  -- The state with another content of one datastore.
  abbrev pub with_contents : Local → Option D → Store D W → Store D W
  with_contents at_startup o s = record s { gds_startup = o }
  with_contents at_candidate o s = record s { gds_cand = o }

  module _ (xml : Libxml D) (run : Running D W) where
    -- A content that can be dumped and read: none, or a document with a root.
    abbrev pub has_content : Option D → Bool
    has_content none = true
    has_content (some d) = xml.has_root d

    abbrev pub IsNormal : Option D → Type 0
    IsNormal none = Unit
    IsNormal (some d) = xml.is_normal d ≡ true

    read_config-dump :
        (o : Option D)
        → IsNormal o
        → read_config xml run (some (dump_or_empty xml run o))
          ≡ (if has_content o then ok o else fail (some (wrong_place "config")))
    read_config-dump none h = refl
    read_config-dump (some d) h = elim (List-cases (xml.dump d)) [
      | inl empty ↦ absurd (xml.dump-ne-nil d empty)
      | inr (c, t, e) ↦ elim (Bool-cases (xml.has_root d)) [
        | inl root ↦
            let back : xml.read (c ∷ t) ≡ some d = rw e at (xml.read-dump d root h) in
            rw (e, back, root) refl
        | inr rootless ↦
            let lost : xml.read (c ∷ t) ≡ none = rw e at (xml.read_rootless d rootless) in
            rw (e, lost, rootless) refl
      ]
    ]

    rollback_lem :
        (t : Local) (s : Store D W)
        → s.rollback_type ≡ datastore t
        → IsNormal s.rollback_doc
        → ofcds_rollback xml run s ≡ (
            if has_content s.rollback_doc
            then (ok tt, with_contents t s.rollback_doc (record s { rollbacking = false }))
            else (fail none, record s { rollbacking = false }))
    unfolding ofcds_rollback ofcds_copyconfig
    rollback_lem at_startup s h k = elim (Bool-cases (has_content s.rollback_doc)) [
      | inl e ↦ rw (h, read_config-dump s.rollback_doc k, e) refl
      | inr e ↦ rw (h, read_config-dump s.rollback_doc k, e) refl
    ]
    rollback_lem at_candidate s h k = elim (Bool-cases (has_content s.rollback_doc)) [
      | inl e ↦ rw (h, read_config-dump s.rollback_doc k, e) refl
      | inr e ↦ rw (h, read_config-dump s.rollback_doc k, e) refl
    ]

    -- The state with the content that the datastore had as what a rollback restores, and no other change.
    abbrev pub restored : Local → Store D W → Store D W
    restored t s = record (store_rollback (contents t s) (datastore t) s) { rollbacking = false }

    put_lem :
        (t : Local) (src : Option D) (s : Store D W)
        → s.rollbacking ≡ false
        → put xml run (datastore t) src s
          ≡ (ok tt, with_contents t src (store_rollback (contents t s) (datastore t) s))
    put_lem at_startup src s idle = rw idle refl
    put_lem at_candidate src s idle = rw idle refl

    copied :
        (t : Local) (source : Datastore) (text : Option Text) (s s' : Store D W)
        → s.rollbacking ≡ false
        → ofcds_copyconfig xml run (datastore t) source text s ≡ (ok tt, s')
        → (src : Option D) × (s'
            ≡ with_contents t src (store_rollback (contents t s) (datastore t) s))
    unfolding ofcds_copyconfig store_rollback
    copied t source text s s' idle done = elim (Result-cases (source_doc xml run source text s)) [
      | inl (src, e) ↦
          let at : put xml run (datastore t) src s ≡ (ok tt, s') = rw e at done in
          (src, ap (λ r. r.1) (sym at ∙ put_lem t src s idle))
      | inr (inl (err, e)) ↦
          let bad : ◌≡◌ {A = Result (Unit {0}) × Store D W} (fail err, s) (ok tt, s') =
            rw e at done in
          cc
      | inr (inr e) ↦
          let bad : ◌≡◌ {A = Result (Unit {0}) × Store D W} (fault, s) (ok tt, s') = rw e at done in
          cc
    ]

    rollback_of_copied :
        (t : Local) (src : Option D) (s s' : Store D W)
        → s.rollbacking ≡ false
        → IsNormal (contents t s)
        → s' ≡ with_contents t src (store_rollback (contents t s) (datastore t) s)
        → ofcds_rollback xml run s'
          ≡ (if has_content (contents t s) then (ok tt, restored t s) else (fail none, s'))
    unfolding store_rollback
    rollback_of_copied at_startup src s s' idle h e =
        rw e (rollback_lem at_startup _ refl h ∙ ground arith)
    rollback_of_copied at_candidate src s s' idle h e =
        rw e (rollback_lem at_candidate _ refl h ∙ ground arith)

    -- After a copy to the startup or the candidate datastore that succeeds, from any source and not as a
    -- part of a rollback, where the content that is replaced is none or a normal document: if it was none
    -- or has a root, a rollback succeeds, and the two datastores and the database are as they were before
    -- the copy; if it is a document without a root, the rollback fails, and all stays as after the copy.
    pub rollback-copyconfig :
        (t : Local) (source : Datastore) (text : Option Text) (s s' : Store D W)
        → s.rollbacking ≡ false
        → IsNormal (contents t s)
        → ofcds_copyconfig xml run (datastore t) source text s ≡ (ok tt, s')
        → ofcds_rollback xml run s'
          ≡ (if has_content (contents t s) then (ok tt, restored t s) else (fail none, s'))
    rollback-copyconfig t source text s s' idle h done =
        let (src, e) = copied t source text s s' idle done in rollback_of_copied t src s s' idle h e
