-- ===== src/Ovs/Adverts/Undone.antt =====
-- Advertising a rate or a medium of a port, and taking it back, in server/ovs-data.c.
use of_config.Base.{
  ℕ, zero, suc, arith, Text, Bool, true, false, some, List, [], ◌∷◌, ◌≡◌, ◌≢◌, ◌⊎◌, inl, inr, refl,
  ap, sym, ◌∙◌, Bool-cases,
}
use of_config.Error.{ok}
use of_config.Xml.{Node, named, first_child, content}
use of_config.Ovs.Adverts.{
  Mode, base_t_half_10, base_t_full_10, base_t_half_100, base_t_full_100, base_t_half_1000,
  base_t_full_1000, base_kx_full_1000, base_t_full_10000, base_kx4_full_10000, base_kr_full_10000,
  base_kr4_full_40000, base_cr4_full_40000, base_sr4_full_40000, base_lr4_full_40000, tp, fibre,
  autoneg, pause, asym_pause, index, Modes, same_mode, with_mode, without_mode, rates, media,
  entry_of, advert_added, advert_deleted, Ethtool, txn_add_port_advert, txn_del_port_advert,
}

-- The node is a rate or a medium, and this is the bit that its text stands for.
abbrev pub StandsFor : Node → Mode → Type 0
StandsFor n m =
    (c : Node) × (first_child n ≡ some c)
    × (((named n "rate" ≡ true) × (entry_of rates (content c) ≡ some m))
        ⊎ ((named n "rate" ≡ false)
            × (named n "medium" ≡ true)
            × (entry_of media (content c) ≡ some m)))

added : (n : Node) (m : Mode) (a : Modes) → StandsFor n m → advert_added n a ≡ ok (with_mode m a)
unfolding advert_added
added n m a (c, e, inl (x, t)) = rw (advert_added, x, e, t) refl
added n m a (c, e, inr (x, y, t)) = rw (advert_added, x, y, e, t) refl

deleted :
    (n : Node) (m : Mode) (a : Modes) → StandsFor n m → advert_deleted n a ≡ ok (without_mode m a)
unfolding advert_deleted
deleted n m a (c, e, inl (x, t)) = rw (advert_deleted, x, e, t) refl
deleted n m a (c, e, inr (x, y, t)) = rw (advert_deleted, x, y, e, t) refl

-- One bit is as given, and every other one as it was.
abbrev pub Switched : Mode → Bool → Modes → Modes → Type 0
Switched m on before after = (after m ≡ on) × ((j : Mode) → j ≢ m → after j ≡ before j)

abbrev all_modes : List Mode
all_modes =
    base_t_half_10 ∷ base_t_full_10 ∷ base_t_half_100 ∷ base_t_full_100 ∷ base_t_half_1000
    ∷ base_t_full_1000 ∷ base_kx_full_1000 ∷ base_t_full_10000 ∷ base_kx4_full_10000
    ∷ base_kr_full_10000 ∷ base_kr4_full_40000 ∷ base_cr4_full_40000 ∷ base_sr4_full_40000
    ∷ base_lr4_full_40000 ∷ tp ∷ fibre ∷ autoneg ∷ pause ∷ asym_pause ∷ []

abbrev mode_at : List Mode → ℕ → Mode
mode_at [] n = tp
mode_at (m ∷ l) zero = m
mode_at (m ∷ l) (suc n) = mode_at l n

mode_at-index : (m : Mode) → mode_at all_modes (index m) ≡ m
mode_at-index base_t_half_10 = refl
mode_at-index _ = refl

same_mode-eq : (m j : Mode) → same_mode m j ≡ true → m ≡ j
same_mode-eq m j h =
    let e : index m ≡ index j = ground arith in
    sym (mode_at-index m) ∙ ap (mode_at all_modes) e ∙ mode_at-index j

apart : (m j : Mode) → j ≢ m → same_mode m j ≡ false
apart m j h = elim (Bool-cases (same_mode m j)) [
  | inl e ↦ absurd (h (sym (same_mode-eq m j e)))
  | inr e ↦ e
]

same_mode_refl : (m : Mode) → same_mode m m ≡ true
same_mode_refl m = ground arith

with_mode-Switched : (m : Mode) (a : Modes) → Switched m true a (with_mode m a)
with_mode-Switched m a = (rw (same_mode_refl m) refl, λ j h. rw (apart m j h) refl)

without_mode-Switched : (m : Mode) (a : Modes) → Switched m false a (without_mode m (with_mode m a))
without_mode-Switched m a = (rw (same_mode_refl m) refl, λ j h. rw (apart m j h) refl)

module _ {K : Type 0} (dev : Ethtool K) where
  added_to :
      (port : Text) (n : Node) (m : Mode) (k : K)
      → dev.is_system port ≡ true
      → StandsFor n m
      → txn_add_port_advert dev (some port) (some n) k
        ≡ (ok tt, dev.set port (with_mode m (dev.get port k)) k)
  unfolding txn_add_port_advert
  added_to port n m k sys h = rw (txn_add_port_advert, sys, added n m (dev.get port k) h) refl

  deleted_from :
      (port : Text) (n : Node) (m : Mode) (k : K)
      → dev.is_system port ≡ true
      → StandsFor n m
      → txn_del_port_advert dev (some port) (some n) k
        ≡ (ok tt, dev.set port (without_mode m (dev.get port k)) k)
  unfolding txn_del_port_advert
  deleted_from port n m k sys h = rw (txn_del_port_advert, sys, deleted n m (dev.get port k) h) refl

  -- On a port of the system whose driver takes what it is given: advertising a rate or a medium of the
  -- tables succeeds and sets its bit; taking it back then succeeds and clears the bit; and every other
  -- bit is as it was at first, both times.
  pub del-add_port_advert :
      (port : Text) (n : Node) (m : Mode) (k k1 k2 : K)
      → dev.is_system port ≡ true
      → ((l : K) (a : Modes) → dev.get port (dev.set port a l) ≡ a)
      → StandsFor n m
      → (txn_add_port_advert dev (some port) (some n) k).1 ≡ k1
      → (txn_del_port_advert dev (some port) (some n) k1).1 ≡ k2
      → ((txn_add_port_advert dev (some port) (some n) k).0 ≡ ok tt)
        × Switched m true (dev.get port k) (dev.get port k1)
        × ((txn_del_port_advert dev (some port) (some n) k1).0 ≡ ok tt)
        × Switched m false (dev.get port k) (dev.get port k2)
  del-add_port_advert port n m k k1 k2 sys takes h on off =
      let first = added_to port n m k sys h in
      let second = deleted_from port n m k1 sys h in
      let bits1 : dev.get port k1 ≡ with_mode m (dev.get port k) =
        ap (dev.get port) (sym on ∙ ap (λ p. p.1) first) ∙ takes k _ in
      let bits2 : dev.get port k2 ≡ without_mode m (with_mode m (dev.get port k)) =
        ap (dev.get port) (sym off ∙ ap (λ p. p.1) second)
        ∙ takes k1 _
        ∙ ap (without_mode m) bits1 in
      (
        ap (λ p. p.0) first,
        rw bits1 (with_mode-Switched m (dev.get port k)),
        ap (λ p. p.0) second,
        rw bits2 (without_mode-Switched m (dev.get port k)),
      )
