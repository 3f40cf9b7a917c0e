-- ===== src/Tests/Ethernet.antt =====
-- The theorem about advertised features on a device that keeps what it is given.
use of_config.Base.{codes, true, false, some, ◌≡◌, refl, inl}
use of_config.Error.{ok}
use of_config.Xml.{Node, text}
use of_config.Ovs.Adverts.{
  base_t_full_100, Modes, with_mode, without_mode, Ethtool, entry, txn_add_port_advert,
  txn_del_port_advert,
}
use of_config.Ovs.Adverts.Undone.{StandsFor, Switched, del-add_port_advert}
use of_config.Tests.Sample.{leaf}

abbrev card : Ethtool Modes
card = record { get = λ port k. k; set = λ port a k. a; is_system = λ port. true }

abbrev silent : Modes
silent m = false

abbrev rate : Node
rate = leaf "rate" "100Mb-FD"

rate-StandsFor : StandsFor rate base_t_full_100
unfolding entry of_config.Base.text_eq
rate-StandsFor = (text (codes "100Mb-FD"), refl, inl (refl, refl))

abbrev hundred : Modes
hundred = with_mode base_t_full_100 silent

added : (txn_add_port_advert card (some (codes "eth0")) (some rate) silent).1 ≡ hundred
unfolding txn_add_port_advert entry of_config.Base.text_eq of_config.Ovs.Adverts.advert_added
added = refl

deleted :
    (txn_del_port_advert card (some (codes "eth0")) (some rate) hundred).1
    ≡ without_mode base_t_full_100 hundred
unfolding txn_del_port_advert entry of_config.Base.text_eq of_config.Ovs.Adverts.advert_deleted
deleted = refl

del-add_port_advert_example :
    ((txn_add_port_advert card (some (codes "eth0")) (some rate) silent).0 ≡ ok tt)
    × Switched base_t_full_100 true silent hundred
    × ((txn_del_port_advert card (some (codes "eth0")) (some rate) hundred).0 ≡ ok tt)
    × Switched base_t_full_100 false silent (without_mode base_t_full_100 hundred)
del-add_port_advert_example =
    del-add_port_advert card (codes "eth0") rate base_t_full_100 silent hundred
      (without_mode base_t_full_100 hundred) refl (λ l a. refl) rate-StandsFor added deleted
