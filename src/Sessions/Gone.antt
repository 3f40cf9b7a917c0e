-- ===== src/Sessions/Gone.antt =====
-- `srv_agent_stop` of server/server_ops.c on the list of agents.
use of_config.Base.{
  ℕ, true, false, Option, none, some, List, [], ◌∷◌, ◌++◌, ◌≡◌, ◌≢◌, refl, sym, ap, ◌∙◌, subst, All,
  ◌&&◌, if◌then◌else◌,
}
use of_config.Error.{ok, fault}
use of_config.Sessions.{
  Agent, Memory, Sessions, write_at, set_next, set_prev, with_next, with_prev, is_held,
  unlink_before, unlink_after, freed, stopped, srv_agent_stop,
}
use of_config.Sessions.Joined.{
  Linked, Linked-frame, All-final, Distinct, final, write_at_same, write_at_other,
}
use of_config.Sessions.Apart.{
  Distinct-right, Distinct-left, Distinct-across, final_apart, head_apart, tail_apart, apart_of,
  Distinct-tail,
}

-- The address that the agent behind these has as its previous one.
abbrev last_or : Option ℕ → List ℕ → Option ℕ
last_or prev [] = prev
last_or prev (a ∷ l) = last_or (some a) l

last_or-final : (a : ℕ) (l : List ℕ) → last_or (some a) l ≡ some (final a l)
last_or-final a [] = refl
last_or-final a (b ∷ l) = last_or-final b l

Linked-split :
    (m : Memory) (prev p : Option ℕ) (l : List ℕ) (a : ℕ) (r : List ℕ)
    → Linked m prev p (l ++ a ∷ r)
    → (c : Agent) × ((m a ≡ some c) × ((c.prev ≡ last_or prev l) × Linked m (some a) c.next r))
Linked-split m prev p [] a r (q, h) = h
Linked-split m prev p (b ∷ l) a r (q, (c, (e, (pr, rest)))) =
    Linked-split m (some b) c.next l a r rest

next-is_held :
    (m : Memory) (prev p : Option ℕ) (r : List ℕ) → Linked m prev p r → is_held p m ≡ true
next-is_held m prev p [] h = rw h refl
next-is_held m prev p (a ∷ r) (q, (c, (e, rest))) = rw (q, is_held, e) refl

final-is_held :
    (m : Memory) (prev p : Option ℕ) (b : ℕ) (l r : List ℕ)
    → Linked m prev p ((b ∷ l) ++ r)
    → is_held (some (final b l)) m ≡ true
final-is_held m prev p b [] r (q, (c, (e, rest))) =
    ap (λ o. elim o [ none ↦ false | some x ↦ true ]) e
final-is_held m prev p b (d ∷ l) r (q, (c, (e, (pr, rest)))) =
    final-is_held m (some b) c.next d l r rest

repointed :
    (m n : Memory) (a y : ℕ) (new : Option ℕ) (r : List ℕ)
    → All (λ z. a ≢ z) r
    → All (λ z. y ≢ z) r
    → All (λ z. n z ≡ m z) r
    → All (λ z. write_at (with_prev n y new) a none z ≡ m z) r
repointed m n a y new [] f g s = tt
repointed m n a y new (z ∷ r) (f, fs) (g, gs) (s, ss) = (
  write_at_other (with_prev n y new) a z none f ∙ (write_at_other n y z (set_prev new (n y)) g ∙ s),
  repointed m n a y new r fs gs ss,
)

-- The agents behind the one that is stopped.
Linked-behind :
    (m n : Memory) (a : ℕ) (old new p : Option ℕ) (r : List ℕ)
    → All (λ z. a ≢ z) r
    → Distinct r
    → All (λ z. n z ≡ m z) r
    → Linked m old p r
    → Linked (write_at (unlink_after p new n) a none) new p r
Linked-behind m n a old new p [] f d s h = h
Linked-behind m n a old new p (y ∷ r) (f, fs) (d, ds) (s, ss) (q, (c, (e, (pr, rest)))) =
    let m' = write_at (with_prev n y new) a none in
    let here =
      write_at_other (with_prev n y new) a y none f
      ∙ (write_at_same n y (set_prev new (n y)) ∙ ap (set_prev new) (s ∙ e)) in
    subst (λ o. Linked (write_at (unlink_after o new n) a none) new o (y ∷ r)) (sym q)
      (
        refl,
        (
          record c { prev = new },
          (
            here,
            (refl, Linked-frame m m' (some y) c.next r (repointed m n a y new r fs d ss) rest),
          ),
        ),
      )

untouched :
    (m n : Memory) (a x : ℕ) (old new p : Option ℕ) (r : List ℕ)
    → a ≢ x
    → All (λ z. x ≢ z) r
    → Linked m old p r
    → write_at (unlink_after p new n) a none x ≡ n x
untouched m n a x old new p [] f g h = rw h (write_at_other n a x none f)
untouched m n a x old new p (y ∷ r) f (g, gs) (q, k) = rw q (
    write_at_other (with_prev n y new) a x none f
    ∙ write_at_other n y x (set_prev new (n y)) (λ e. g (sym e)))

-- The agents before the one that is stopped.
Linked-before :
    (m m' : Memory) (prev p : Option ℕ) (b : ℕ) (l r r' : List ℕ) (v : Option ℕ)
    → Distinct (b ∷ l)
    → All (λ x. final b l ≢ x → m' x ≡ m x) (b ∷ l)
    → m' (final b l) ≡ set_next v (m (final b l))
    → Linked m' (some (final b l)) v r'
    → Linked m prev p ((b ∷ l) ++ r)
    → Linked m' prev p ((b ∷ l) ++ r')
Linked-before m m' prev p b [] r r' v d s e k (q, (c, (h, (pr, rest)))) =
    (q, (record c { next = v }, (e ∙ ap (set_next v) h, (pr, k))))
Linked-before m m' prev p b (x ∷ l) r r' v ((d, dl), ds) (s, ss) e k (q, (c, (h, (pr, rest)))) =
    let apart : final x l ≢ b = λ i. All-final (λ y. b ≢ y) x l d dl (sym i) in
    (q, (c, (s apart ∙ h, (pr, Linked-before m m' (some b) c.next x l r r' v ds ss e k rest))))

-- The agents before the one that is stopped keep their cells, but for the last of them.
before_kept :
    (m : Memory) (a f : ℕ) (old new p v : Option ℕ) (l r : List ℕ)
    → All (λ x. All (λ y. x ≢ y) (a ∷ r)) l
    → Linked m old p r
    → All (λ x. f ≢ x → write_at (unlink_after p new (with_next m f v)) a none x ≡ m x) l
before_kept m a f old new p v [] r d k = tt
before_kept m a f old new p v (x ∷ l) r ((g, h), ds) k = (
  (λ i.
      untouched m (with_next m f v) a x old new p r (λ e. g (sym e)) h k
      ∙ write_at_other m f x (set_next v (m f)) i),
  before_kept m a f old new p v l r ds k,
)

behind_kept :
    (m : Memory) (f : ℕ) (v : Option ℕ) (r : List ℕ)
    → All (λ z. f ≢ z) r
    → All (λ z. with_next m f v z ≡ m z) r
behind_kept m f v [] h = tt
behind_kept m f v (z ∷ r) (h, hs) =
    (write_at_other m f z (set_next v (m f)) h, behind_kept m f v r hs)

-- What `srv_agent_stop` does on an agent with held neighbours.
stop_lem :
    (a : ℕ) (s : Sessions) (c : Agent)
    → s.memory a ≡ some c
    → is_held c.prev s.memory ≡ true
    → is_held c.next s.memory ≡ true
    → srv_agent_stop a s ≡ (ok tt, freed a c (unlink_before c.prev c.next s))
unfolding srv_agent_stop
stop_lem a s c e p n =
    ap (λ o. stopped a o s) e
    ∙ ap (λ b. if b then (ok tt, freed a c (unlink_before c.prev c.next s)) else (fault, s))
        (ap (λ x. x && is_held c.next s.memory) p ∙ n)

same : (m : Memory) (r : List ℕ) → All (λ z. m z ≡ m z) r
same m [] = tt
same m (z ∷ r) = (refl, same m r)

-- The agent that is stopped has another before it.
stopped_behind :
    (a : ℕ) (s : Sessions) (b : ℕ) (l r : List ℕ)
    → Distinct ((b ∷ l) ++ a ∷ r)
    → Linked s.memory none s.agents ((b ∷ l) ++ a ∷ r)
    → (c : Agent) × ((s.memory a ≡ some c)
        × ((c.prev ≡ last_or none (b ∷ l)) × Linked s.memory (some a) c.next r))
    → (t : Sessions) × ((srv_agent_stop a s ≡ (ok tt, t))
        × (Linked t.memory none t.agents ((b ∷ l) ++ r) × (t.memory a ≡ none)))
stopped_behind a s b l r d h (c, (e, (pv, k))) =
    let f = final b l in
    let prev : c.prev ≡ some f = pv ∙ last_or-final b l in
    let across = Distinct-across (b ∷ l) (a ∷ r) d in
    let apart = final_apart b l (a ∷ r) across in
    let m1 = with_next s.memory f c.next in
    let behind : Distinct (a ∷ r) = Distinct-right (b ∷ l) (a ∷ r) d in
    let m2 = write_at (unlink_after c.next (some f) m1) a none in
    let at_last =
      untouched s.memory m1 a f (some a) (some f) c.next r (head_apart f a r apart)
        (tail_apart f a r apart) k
      ∙ write_at_same s.memory f (set_next c.next (s.memory f)) in
    let kept = behind_kept s.memory f c.next r (tail_apart f a r apart) in
    let rest =
      Linked-behind s.memory m1 a (some a) (some f) c.next r (apart_of a r behind)
        (Distinct-tail a r behind) kept k in
    let before = before_kept s.memory a f (some a) (some f) c.next c.next (b ∷ l) r across k in
    (
      freed a c (unlink_before c.prev c.next s),
      (
        stop_lem a s c e
            (ap (λ o. is_held o s.memory) prev ∙ final-is_held s.memory none s.agents b l (a ∷ r) h)
            (next-is_held s.memory (some a) c.next r k),
        (
          subst
              (λ o.
                Linked (write_at (unlink_after c.next o (unlink_before o c.next s).memory) a none)
                  none (unlink_before o c.next s).agents ((b ∷ l) ++ r))
              (sym prev)
              (Linked-before s.memory m2 none s.agents b l (a ∷ r) r c.next
                (Distinct-left (b ∷ l) (a ∷ r) d) before at_last rest h),
          write_at_same (unlink_after c.next c.prev (unlink_before c.prev c.next s).memory) a none,
        ),
      ),
    )

-- From a list of agents that is linked in both directions, whose addresses differ from each other,
-- `srv_agent_stop` on any of them succeeds, leaves the others in their order, linked in both directions,
-- and its cell is freed.
pub srv_agent_stop-Linked :
    (a : ℕ) (s : Sessions) (l r : List ℕ)
    → Distinct (l ++ a ∷ r)
    → Linked s.memory none s.agents (l ++ a ∷ r)
    → (t : Sessions) × ((srv_agent_stop a s ≡ (ok tt, t))
        × (Linked t.memory none t.agents (l ++ r) × (t.memory a ≡ none)))
srv_agent_stop-Linked a s [] r (f, d) (q, (c, (e, (pr, k)))) = (
  freed a c (unlink_before c.prev c.next s),
  (
    stop_lem a s c e (rw (pr, is_held) refl) (next-is_held s.memory (some a) c.next r k),
    (
      subst
          (λ o.
            Linked (freed a c (unlink_before o c.next s)).memory none
              (freed a c (unlink_before o c.next s)).agents r)
          (sym pr)
          (subst (λ o. Linked (write_at (unlink_after c.next o s.memory) a none) none c.next r)
            (sym pr)
            (Linked-behind s.memory s.memory a (some a) none c.next r f d (same s.memory r) k)),
      write_at_same (unlink_after c.next c.prev (unlink_before c.prev c.next s).memory) a none,
    ),
  ),
)
srv_agent_stop-Linked a s (b ∷ l) r d h =
    let found = Linked-split s.memory none s.agents (b ∷ l) a r h in
    stopped_behind a s b l r d h found
