-- ===== src/Ovs/AdminState/Changed.antt =====
-- What `txn_mod_port_admin_state` of server/ovs-data.c hands to the kernel.
use of_config.Base.{
  ℕ, ◌/◌, ◌%◌, ◌^◌, ◌<◌, Text, codes, Bool, true, false, some, text_eq, text_eq_refl, if◌then◌else◌,
  ◌≡◌, refl, arith,
}
use of_config.Error.{ok}
use of_config.Ovs.AdminState.{
  Ioctl, widened, narrowed, is_up, with_up, without_up, dev_get_flags, dev_set_flags,
  txn_mod_port_admin_state,
}

narrowed-with_up :
    (f g : ℕ) → f < 2 ^ 16 → g / 2 ≡ f / 2 → g % 2 ≡ 1 → narrowed (with_up (widened f)) ≡ g
narrowed-with_up f g h same bit = ground arith

narrowed-without_up :
    (f g : ℕ) → f < 2 ^ 16 → g / 2 ≡ f / 2 → g % 2 ≡ 0 → narrowed (without_up (widened f)) ≡ g
narrowed-without_up f g h same bit = ground arith

is_up-widened : (g : ℕ) → g % 2 ≡ 1 → is_up (widened g) ≡ true
is_up-widened g h = ground arith

down-widened : (g : ℕ) → g % 2 ≡ 0 → is_up (widened g) ≡ false
down-widened g h = ground arith

is_text_up : text_eq (codes "up") (codes "up") ≡ true
is_text_up = text_eq_refl (codes "up")

is_text_down : text_eq (codes "down") (codes "down") ≡ true
is_text_down = text_eq_refl (codes "down")

down_is_not_up : text_eq (codes "down") (codes "up") ≡ false
unfolding text_eq
down_is_not_up = refl

module _ {K : Type 0} (dev : Ioctl K) where
  -- Where the kernel reports 16 bits of flags, takes the same ones with only the bit IFF_UP as it is wanted,
  -- and then reports these, the change to `up` or `down` succeeds, and leaves the kernel as after this one
  -- call.
  pub txn_mod_port_admin_state-changed :
      (up : Bool) (port_name : Text) (f g : ℕ) (k k' : K)
      → f < 2 ^ 16
      → g / 2 ≡ f / 2
      → g % 2 ≡ (if up then 1 else 0)
      → dev.get_flags k port_name ≡ some f
      → dev.set_flags k port_name g ≡ some k'
      → dev.get_flags k' port_name ≡ some g
      → txn_mod_port_admin_state dev (some port_name) (some (codes (if up then "up" else "down"))) k
        ≡ (ok tt, k')
  unfolding txn_mod_port_admin_state dev_get_flags dev_set_flags
  txn_mod_port_admin_state-changed true x f g k k' h same bit before set after =
      rw (is_text_up, before, narrowed-with_up f g h same bit, set, after, is_up-widened g bit) refl
  txn_mod_port_admin_state-changed false x f g k k' h same bit before set after =
      rw
        (
          down_is_not_up,
          is_text_down,
          before,
          narrowed-without_up f g h same bit,
          set,
          after,
          down-widened g bit,
        )
        refl
