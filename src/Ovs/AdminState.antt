-- ===== src/Ovs/AdminState.antt =====
-- The administrative state of ports in server/ovs-data.c. The kernel's `ioctl` is a parameter.
pub mod Reached
pub mod Changed
use of_config.Base.{
  ℕ, ◌+◌, ◌-◌, ◌%◌, ◌^◌, ◌==◌, leb, Text, codes, Bool, true, false, not, ◌&&◌, ◌||◌, Option, none,
  some, text_eq, if◌then◌else◌,
}
use of_config.Error.{Result, ok, fail, NcErr, bad_element_msg, failed_msg}
use of_config.Ovs.Txn.{invalid_input}

-- SIOCGIFFLAGS and SIOCSIFFLAGS on the kernel's state K: the 16 bits of `ifr_flags`, and failure.
pub record Ioctl (K : Type 0) : Type 0 where
  pub get_flags : K → Text → Option ℕ
  pub set_flags : K → Text → ℕ → Option K

-- A short as an unsigned int, and back.
abbrev pub widened : ℕ → ℕ
widened f = if leb (2 ^ 15) f then f + (2 ^ 32 - 2 ^ 16) else f

abbrev pub narrowed : ℕ → ℕ
narrowed f = f % 2 ^ 16

-- IFF_UP is the lowest bit.
abbrev pub is_up : ℕ → Bool
is_up f = f % 2 == 1

abbrev pub with_up : ℕ → ℕ
with_up f = f - f % 2 + 1

abbrev pub without_up : ℕ → ℕ
without_up f = f - f % 2

abbrev pub no_change : NcErr
no_change = failed_msg "Interface admin state not set to the requested value."

abbrev pub bad_value : NcErr
bad_value = bad_element_msg "admin-state" "Invalid value to set."

module _ {K : Type 0} (dev : Ioctl K) where
  abbrev pub flags_or_zero : Option ℕ → ℕ
  flags_or_zero none = 0
  flags_or_zero (some f) = widened f

  unfoldable pub dev_get_flags : K → Text → ℕ
  dev_get_flags k ifname = flags_or_zero (dev.get_flags k ifname)

  -- The callers do not look at the result.
  abbrev pub or_unchanged : Option K → K → K
  or_unchanged none k = k
  or_unchanged (some k') k = k'

  unfoldable pub dev_set_flags : K → Text → ℕ → K
  dev_set_flags k ifname flags = or_unchanged (dev.set_flags k ifname (narrowed flags)) k

  abbrev pub check_state : Bool → Text → K → Result (Unit {0}) × K
  check_state req port_name k =
      let flags = dev_get_flags k port_name in
      if (req && not (is_up flags)) || (not req && is_up flags)
      then (fail (some no_change), k)
      else (ok tt, k)

  -- `flags && IFF_UP` holds whenever a flag is set.
  abbrev pub default_state : Text → K → Result (Unit {0}) × K
  default_state port_name k =
      let flags = dev_get_flags k port_name in
      let changed = check_state true port_name (dev_set_flags k port_name (with_up flags)) in
      if not (flags == 0) then (ok tt, k) else changed

  abbrev pub set_state : Text → Text → K → Result (Unit {0}) × K
  set_state port_name value k =
      let flags = dev_get_flags k port_name in
      let up = check_state true port_name (dev_set_flags k port_name (with_up flags)) in
      let down = check_state false port_name (dev_set_flags k port_name (without_up flags)) in
      if text_eq value (codes "up")
      then up
      else if text_eq value (codes "down")
      then down
      else (fail (some bad_value), k)

  unfoldable pub txn_mod_port_admin_state : Option Text → Option Text → K → Result (Unit {0}) × K
  txn_mod_port_admin_state none value k = (fail (some invalid_input), k)
  txn_mod_port_admin_state (some port_name) none k = default_state port_name k
  txn_mod_port_admin_state (some port_name) (some value) k = set_state port_name value k
