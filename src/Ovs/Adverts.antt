-- ===== src/Ovs/Adverts.antt =====
-- The features that a port advertises: `txn_add_port_advert` and `txn_del_port_advert` of
-- server/ovs-data.c. The field `advertising` of the kernel's record is the set of its bits.
pub mod Undone
use of_config.Base.{
  ℕ, String, Text, codes, Bool, true, false, not, ◌||◌, ◌&&◌, Option, none, some, List, [], ◌∷◌,
  if◌then◌else◌, text_eq, ◌==◌,
}
use of_config.Error.{Result, ok, fail, fault, NcErr, nc_err_new, op_failed, failed_msg, ◌>>=◌}
use of_config.Xml.{Node, named, first_child, content}

-- The constants ADVERTISED_* of the kernel that the code uses, one bit each.
pub data Mode : Type 0 where
  base_t_half_10 base_t_full_10 base_t_half_100 base_t_full_100 base_t_half_1000 base_t_full_1000 :
      Mode
  base_kx_full_1000 base_t_full_10000 base_kx4_full_10000 base_kr_full_10000 : Mode
  base_kr4_full_40000 base_cr4_full_40000 base_sr4_full_40000 base_lr4_full_40000 : Mode
  tp fibre autoneg pause asym_pause : Mode

-- A number for each, to tell them apart.
abbrev pub index : Mode → ℕ
index base_t_half_10 = 0
index base_t_full_10 = 1
index base_t_half_100 = 2
index base_t_full_100 = 3
index base_t_half_1000 = 4
index base_t_full_1000 = 5
index base_kx_full_1000 = 6
index base_t_full_10000 = 7
index base_kx4_full_10000 = 8
index base_kr_full_10000 = 9
index base_kr4_full_40000 = 10
index base_cr4_full_40000 = 11
index base_sr4_full_40000 = 12
index base_lr4_full_40000 = 13
index tp = 14
index fibre = 15
index autoneg = 16
index pause = 17
index asym_pause = 18

abbrev pub same_mode : Mode → Mode → Bool
same_mode m n = index m == index n

abbrev pub Modes : Type 0
Modes = Mode → Bool

-- `ecmd->advertising |= m` and `ecmd->advertising &= ~m`
abbrev pub with_mode : Mode → Modes → Modes
with_mode m a n = same_mode m n || a n

abbrev pub without_mode : Mode → Modes → Modes
without_mode m a n = not (same_mode m n) && a n

abbrev pub rates : List (Mode × String)
rates =
    (base_t_half_10, "10Mb-HD")
    ∷ (base_t_full_10, "10Mb-FD")
    ∷ (base_t_half_100, "100Mb-HD")
    ∷ (base_t_full_100, "100Mb-FD")
    ∷ (base_t_half_1000, "1Gb-HD")
    ∷ (base_t_full_1000, "1Gb-FD")
    ∷ (base_kx_full_1000, "1Gb-FD")
    ∷ (base_t_full_10000, "10Gb")
    ∷ (base_kx4_full_10000, "10Gb")
    ∷ (base_kr_full_10000, "10Gb")
    ∷ (base_kr4_full_40000, "40Gb")
    ∷ (base_cr4_full_40000, "40Gb")
    ∷ (base_sr4_full_40000, "40Gb")
    ∷ (base_lr4_full_40000, "40Gb")
    ∷ []

abbrev pub media : List (Mode × String)
media = (tp, "copper") ∷ (fibre, "fiber") ∷ []

-- the loops over the tables, up to the first entry with that name
unfoldable pub entry : Text → List (Mode × String) → Option Mode
entry t [] = none
entry t ((m, x) ∷ rest) = let later = entry t rest in if text_eq t (codes x) then some m else later

-- a content that is NULL equals nothing
abbrev pub entry_of : List (Mode × String) → Option Text → Option Mode
entry_of table none = none
entry_of table (some t) = entry t table

abbrev pub is_content : Option Text → String → Bool
is_content none x = false
is_content (some t) x = text_eq t (codes x)

-- `node->children->content`
abbrev pub child_value : Option Node → Result (Option Text)
child_value none = fault
child_value (some c) = ok (content c)

abbrev pub if_found : (Mode → Modes → Modes) → Option Mode → Modes → Modes
if_found f none a = a
if_found f (some m) a = f m a

abbrev pub add_autoneg : Option Text → Modes → Modes
add_autoneg v a =
    if is_content v "false"
    then without_mode autoneg a
    else if is_content v "true"
    then with_mode autoneg a
    else a

abbrev pub add_pause : Option Text → Modes → Modes
add_pause v a =
    if is_content v "asymetric"
    then with_mode asym_pause (without_mode pause a)
    else if is_content v "symetric"
    then with_mode pause (without_mode asym_pause a)
    else a

unfoldable pub advert_added : Node → Modes → Result Modes
advert_added n a =
    if named n "rate"
    then child_value (first_child n) >>= (λ v. ok (if_found with_mode (entry_of rates v) a))
    else if named n "medium"
    then child_value (first_child n) >>= (λ v. ok (if_found with_mode (entry_of media v) a))
    else if named n "auto-negotiate"
    then child_value (first_child n) >>= (λ v. ok (add_autoneg v a))
    else if named n "pause"
    then child_value (first_child n) >>= (λ v. ok (add_pause v a))
    else ok a

unfoldable pub advert_deleted : Node → Modes → Result Modes
advert_deleted n a =
    if named n "rate"
    then child_value (first_child n) >>= (λ v. ok (if_found without_mode (entry_of rates v) a))
    else if named n "medium"
    then child_value (first_child n) >>= (λ v. ok (if_found without_mode (entry_of media v) a))
    else if named n "auto-negotiate"
    then ok (with_mode autoneg a)
    else if named n "pause"
    then ok (without_mode asym_pause (without_mode pause a))
    else ok a

-- `dev_get_ethtool`, `dev_set_ethtool`, whose result nobody looks at, and `dev_is_system`
pub record Ethtool (K : Type 0) : Type 0 where
  pub get : Text → K → Modes
  pub set : Text → Modes → K → K
  pub is_system : Text → Bool

abbrev pub not_system : NcErr
not_system = failed_msg "Unable to set advertised values on this type of interface"

module _ {K : Type 0} (dev : Ethtool K) where
  abbrev pub write_back : Text → Result Modes → K → Result (Unit {0}) × K
  write_back port (ok a) k = (ok tt, dev.set port a k)
  write_back port (fail e) k = (fail e, k)
  write_back port fault k = (fault, k)

  abbrev pub change_advert :
      (Node → Modes → Result Modes) → Option Text → Option Node → K → Result (Unit {0}) × K
  change_advert f none n k = (fail (some (nc_err_new op_failed)), k)
  change_advert f (some port) none k = (fail (some (nc_err_new op_failed)), k)
  change_advert f (some port) (some n) k =
      if dev.is_system port
      then write_back port (f n (dev.get port k)) k
      else (fail (some not_system), k)

  unfoldable pub txn_add_port_advert : Option Text → Option Node → K → Result (Unit {0}) × K
  txn_add_port_advert port n k = change_advert advert_added port n k

  unfoldable pub txn_del_port_advert : Option Text → Option Node → K → Result (Unit {0}) × K
  txn_del_port_advert port n k = change_advert advert_deleted port n k
