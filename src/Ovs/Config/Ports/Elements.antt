-- ===== src/Ovs/Config/Ports/Elements.antt =====
-- Which documents server/ovs-data.c prints for the interfaces of ports.
use of_config.Base.{
  String, Text, codes, Bool, true, false, Option, none, some, List, [], ◌∷◌, ◌++◌, ◌≡◌, refl, ap,
  ◌∙◌, sym, append_assoc, if◌then◌else◌, text_eq, Bool-cases, inl, inr,
}
use of_config.Error.{Result, ok}
use of_config.Ovs.Db.{Uuid, Smap, Interface, Db, port_at, interface_at}
use of_config.Ovs.Adverts.{Mode, Modes, rates, media, autoneg, asym_pause, pause}
use of_config.Ovs.Config.{text_element, optional_element, find_and_append_smap_val, Columns}
use of_config.Ovs.Config.Documents.{
  Document, end, element, ◌⊕◌, leaf, leaf_if, around, render, render-append, render-leaf, rendered,
  documents, each_row-documents,
}
use of_config.Ovs.Config.Printed.{rendering, row_doc, at_row-rendered}
use of_config.Ovs.Config.Ports.{
  PortConfig, Devices, each_mode, pause_of, true_or_false, dump_port_features, configuration_text,
  features_text, tunnel_key, tunnel_text, number_of, interface_text, interfaces_text,
}

abbrev pub mode_docs : String → Modes → List (Mode × String) → Document
mode_docs elem mask [] = end
mode_docs elem mask ((m, str) ∷ rest) =
    (if mask m then leaf elem (codes str) else end) ⊕ mode_docs elem mask rest

each_mode-render :
    (elem : String) (mask : Modes) (l : List (Mode × String))
    → each_mode elem mask l ≡ render (mode_docs elem mask l)
unfolding render
each_mode-render elem mask [] = refl
each_mode-render elem mask ((m, str) ∷ rest) = elim (Bool-cases (mask m)) [
  | inl on ↦
      rw
        (
          on,
          render-append (leaf elem (codes str)) (mode_docs elem mask rest),
          each_mode-render elem mask rest,
        )
        (ap (λ x. x ++ render (mode_docs elem mask rest)) (sym (render-leaf elem (codes str))))
  | inr off ↦
      rw (off, render-append end (mode_docs elem mask rest), each_mode-render elem mask rest) refl
]

-- The words for the values, by the bits that are set.
abbrev pub pause_word : Bool → Bool → Text
pause_word true symmetric = codes "asymmetric"
pause_word false true = codes "symmetric"
pause_word false false = codes "unsupported"

abbrev pub truth_word : Bool → Text
truth_word true = codes "true"
truth_word false = codes "false"

abbrev pub state_word : Bool → Text
state_word true = codes "down"
state_word false = codes "up"

pause_of-pause_word : (mask : Modes) → pause_of mask ≡ pause_word (mask asym_pause) (mask pause)
pause_of-pause_word mask = elim (Bool-cases (mask asym_pause)) [
  | inl e ↦ rw e refl
  | inr e ↦ elim (Bool-cases (mask pause)) [ inl f ↦ rw (e, f) refl | inr f ↦ rw (e, f) refl ]
]

true_or_false-truth_word : (b : Bool) → true_or_false b ≡ truth_word b
true_or_false-truth_word true = refl
true_or_false-truth_word false = refl

down_or_up-state_word : (b : Bool) → (if b then codes "down" else codes "up") ≡ state_word b
down_or_up-state_word true = refl
down_or_up-state_word false = refl

abbrev pub features_doc : Bool → Modes → Document
features_doc true mask = around "features" (
    around "advertised" (
      mode_docs "rate" mask rates
      ⊕ (leaf "auto-negotiate" (truth_word (mask autoneg))
          ⊕ (mode_docs "medium" mask media
              ⊕ leaf "pause" (pause_word (mask asym_pause) (mask pause))))))
features_doc false mask = end

dump_port_features-render :
    (mask : Modes)
    → dump_port_features mask
      ≡ render (
          mode_docs "rate" mask rates
          ⊕ (leaf "auto-negotiate" (truth_word (mask autoneg))
              ⊕ (mode_docs "medium" mask media
                  ⊕ leaf "pause" (pause_word (mask asym_pause) (mask pause)))))
unfolding dump_port_features
dump_port_features-render mask =
    rw
      (
        each_mode-render "rate" mask rates,
        each_mode-render "medium" mask media,
        pause_of-pause_word mask,
        true_or_false-truth_word (mask autoneg),
      )
      (sym (simp (render-append, render-leaf)))

nested :
    (t : Text)
    → codes "<features><advertised>" ++ (t ++ codes "</advertised></features>")
      ≡ text_element "features" (text_element "advertised" t)
nested t = simp append_assoc

features_text-render :
    (b : Bool) (mask : Modes) → features_text b mask ≡ render (features_doc b mask)
unfolding render
features_text-render true mask =
    nested (dump_port_features mask)
    ∙ ap (λ t. text_element "features" (text_element "advertised" t))
        (dump_port_features-render mask)
features_text-render false mask = refl

abbrev pub configuration_doc : Option PortConfig → Option Text → Document
configuration_doc (some c) admin = around "configuration" (
    leaf "admin-state" (state_word c.port_down)
    ⊕ (leaf "no-receive" (truth_word c.no_recv)
        ⊕ (leaf "no-forward" (truth_word c.no_fwd)
            ⊕ leaf "no-packet-in" (truth_word c.no_packet_in))))
configuration_doc none (some s) = around "configuration" (leaf "admin-state" s)
configuration_doc none none = end

bits_render :
    (down recv fwd packet : Text)
    → codes "<configuration><admin-state>"
        ++ (down
            ++ (codes "</admin-state><no-receive>"
                ++ (recv
                    ++ (codes "</no-receive><no-forward>"
                        ++ (fwd
                            ++ (codes "</no-forward><no-packet-in>"
                                ++ (packet ++ codes "</no-packet-in></configuration>")))))))
      ≡ render (
          around "configuration" (
            leaf "admin-state" down
            ⊕ (leaf "no-receive" recv ⊕ (leaf "no-forward" fwd ⊕ leaf "no-packet-in" packet))))
unfolding render ◌⊕◌
bits_render down recv fwd packet = simp rendering

configuration_text-render :
    (c : Option PortConfig) (admin : Option Text)
    → configuration_text c admin ≡ render (configuration_doc c admin)
unfolding render ◌⊕◌
configuration_text-render (some c) admin =
    rw
      (
        down_or_up-state_word c.port_down,
        true_or_false-truth_word c.no_recv,
        true_or_false-truth_word c.no_fwd,
        true_or_false-truth_word c.no_packet_in,
      )
      (bits_render (state_word c.port_down) (truth_word c.no_recv) (truth_word c.no_fwd)
        (truth_word c.no_packet_in))
configuration_text-render none (some s) = simp rendering
configuration_text-render none none = refl

abbrev pub tunnel_key_doc : Text → Smap → Document
tunnel_key_doc t options =
    if text_eq t (codes "ipgre-tunnel")
    then leaf_if "checksum-present" (options "csum") ⊕ leaf_if "key" (options "key")
    else if text_eq t (codes "vxlan-tunnel")
    then leaf_if "vni" (options "key")
    else end

tunnel_key-render :
    (t : Text) (options : Smap) → tunnel_key t options ≡ render (tunnel_key_doc t options)
unfolding render find_and_append_smap_val
tunnel_key-render t options = elim (Bool-cases (text_eq t (codes "ipgre-tunnel"))) [
  | inl gre ↦ rw gre (simp rendering)
  | inr other ↦ elim (Bool-cases (text_eq t (codes "vxlan-tunnel"))) [
    | inl vxlan ↦ rw (other, vxlan) (simp rendering)
    | inr none_of ↦ rw (other, none_of) refl
  ]
]

abbrev pub tunnel_doc : Option Text → Smap → Document
tunnel_doc none options = end
tunnel_doc (some t) options =
    element t
      (leaf_if "local-endpoint-ipv4-adress" (options "local_ip")
        ⊕ (leaf_if "remote-endpoint-ipv4-adress" (options "remote_ip") ⊕ tunnel_key_doc t options))
      end

tunnel_text-render :
    (t : Option Text) (options : Smap) → tunnel_text t options ≡ render (tunnel_doc t options)
unfolding render find_and_append_smap_val
tunnel_text-render none options = refl
tunnel_text-render (some t) options = rw (tunnel_key-render t options) (simp rendering)

abbrev pub interface_doc : Columns → Devices → Text → Interface → Document
interface_doc c v bridge row = around "port" (
    leaf "name" row.name
    ⊕ (leaf_if "requested-number" (number_of row.ofport_request)
        ⊕ (configuration_doc (v.of_port bridge row.name) (c.admin_state row.uuid)
            ⊕ (features_doc (v.is_system row.name) (v.advertising row.name)
                ⊕ tunnel_doc (row.external_ids "tunnel_type") row.options))))

port_render :
    (name : Text) (number : Option Text) (x y z : Document)
    → codes "<port><name>"
        ++ (name
            ++ (codes "</name>"
                ++ (optional_element "requested-number" number
                    ++ (render x ++ (render y ++ (render z ++ codes "</port>"))))))
      ≡ render
          (around "port" (leaf "name" name ⊕ (leaf_if "requested-number" number ⊕ (x ⊕ (y ⊕ z)))))
unfolding render ◌⊕◌
port_render name number x y z = simp rendering

interface_text-render :
    (c : Columns) (v : Devices) (bridge : Text) (row : Interface)
    → interface_text c v bridge row ≡ ok (render (interface_doc c v bridge row))
interface_text-render c v bridge row =
    rw
      (
        configuration_text-render (v.of_port bridge row.name) (c.admin_state row.uuid),
        features_text-render (v.is_system row.name) (v.advertising row.name),
        tunnel_text-render (row.external_ids "tunnel_type") row.options,
      )
      (ap ok (port_render row.name (number_of row.ofport_request) _ _ _))

abbrev pub interfaces_of : Db → Columns → Devices → Text → Uuid → Result Document
interfaces_of d c v bridge p = row_doc (port_at p d) (λ port.
    documents (λ i. row_doc (interface_at i d) (λ row. ok (interface_doc c v bridge row)))
      (c.interfaces p))

pub interfaces_text-rendered :
    (d : Db) (c : Columns) (v : Devices) (bridge : Text) (p : Uuid)
    → interfaces_text d c v bridge p ≡ rendered (interfaces_of d c v bridge p)
interfaces_text-rendered d c v bridge p =
    at_row-rendered _ _
      (λ port.
        each_row-documents _ _
          (λ i.
            at_row-rendered (interface_text c v bridge) (λ row. ok (interface_doc c v bridge row))
              (interface_text-render c v bridge) (interface_at i d))
          (c.interfaces p))
      (port_at p d)
