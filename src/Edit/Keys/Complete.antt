-- ===== src/Edit/Keys/Complete.antt =====
-- When `check_keys` of server/edit-config.c accepts a document.
use of_config.Base.{
  subst, String, true, false, Option, none, some, List, [], ◌∷◌, All, ◌≡◌, ◌≢◌, ◌↔◌, inl, inr, refl,
  arith, eq_iff, str_eq, Bool-cases,
}
use of_config.Error.{Result, ok, ◌>>=◌, ok_of_bind}
use of_config.Xml.{Node, Doc, name, named, children, is_element, go2node}
use of_config.Edit.Keys.{
  need_key, check_each, check_resource, check_controller, check_switch, check_section, check_keys,
  root_element, controllers_of, check_root,
}

-- An element of that name has a child element of the key's name.
abbrev pub Keyed : Node → String → String → Type 0
Keyed n x key = is_element n ≡ true → named n x ≡ true → go2node (some n) key ≢ none

abbrev pub ResourceKeyed : Node → Type 0
ResourceKeyed n =
    Keyed n "port" "name"
    × Keyed n "queue" "resource-id"
    × Keyed n "owned-certificate" "resource-id"
    × Keyed n "external-certificate" "resource-id"
    × Keyed n "flow-table" "table-id"

abbrev pub SwitchKeyed : Node → Type 0
SwitchKeyed n =
    Keyed n "switch" "id"
    × (is_element n ≡ true
        → named n "switch" ≡ true
        → (c : Node) → go2node (some n) "controllers" ≡ some c
        → All (λ d. Keyed d "controller" "id") (children c))

abbrev pub SectionKeyed : Node → Type 0
SectionKeyed n =
    (is_element n ≡ true → named n "resources" ≡ true → All ResourceKeyed (children n))
    × (is_element n ≡ true → named n "logical-switches" ≡ true → All SwitchKeyed (children n))

need_key_iff : (n : Node) (k : String) → (need_key n k ≡ ok tt) ↔ (go2node (some n) k ≢ none)
unfolding need_key
need_key_iff n k = ground arith

other_name : (n : Node) (x y : String) → str_eq x y ≡ false → named n x ≡ true → named n y ≡ false
other_name n x y d h = rw ((eq_iff (name n) x).0 h) d

check_each_iff :
    (check : Node → Result (Unit {0})) (P : Node → Type 0)
    → ((n : Node) → (check n ≡ ok tt) ↔ P n)
    → (l : List Node) → (check_each check l ≡ ok tt) ↔ All P l
unfolding check_each
check_each_iff check P each [] = (λ e. tt, λ e. refl)
check_each_iff check P each (n ∷ rest) = ground (arith, each n, check_each_iff check P each rest)

module _ (n : Node) where
  check_resource_iff : (check_resource n ≡ ok tt) ↔ ResourceKeyed n
  unfolding check_resource
  check_resource_iff = elim (Bool-cases (named n "port")) [
    | inl e ↦ ground (
      arith,
      need_key_iff n "name",
      other_name n "port" "queue" refl e,
      other_name n "port" "owned-certificate" refl e,
      other_name n "port" "external-certificate" refl e,
      other_name n "port" "flow-table" refl e,
    )
    | inr no_port ↦ elim (Bool-cases (named n "flow-table")) [
      | inl e ↦ ground (
        arith,
        need_key_iff n "table-id",
        other_name n "flow-table" "queue" refl e,
        other_name n "flow-table" "owned-certificate" refl e,
        other_name n "flow-table" "external-certificate" refl e,
      )
      | inr no_table ↦ ground (arith, need_key_iff n "resource-id")
    ]
  ]

  check_controller_iff : (check_controller n ≡ ok tt) ↔ Keyed n "controller" "id"
  unfolding check_controller
  check_controller_iff = ground (arith, need_key_iff n "id")

-- The controllers of a switch, where it has that element.
abbrev ControllersKeyed : Option Node → Type 0
ControllersKeyed o = (c : Node) → o ≡ some c → All (λ d. Keyed d "controller" "id") (children c)

controllers_of_iff : (o : Option Node) → (controllers_of o ≡ ok tt) ↔ ControllersKeyed o
controllers_of_iff none = (λ e c h. cc, λ h. refl)
controllers_of_iff (some n) =
    let all = check_each_iff check_controller _ check_controller_iff (children n) in
    (
      λ e c h.
          let same : n ≡ c = cc in
          subst (λ x. All (λ d. Keyed d "controller" "id") (children x)) same (all.0 e),
      λ h. all.1 (h n refl),
    )

switch_parts_iff :
    (n : Node)
    → ((need_key n "id" >>= λ _. controllers_of (go2node (some n) "controllers")) ≡ ok tt)
      ↔ ((go2node (some n) "id" ≢ none) × ControllersKeyed (go2node (some n) "controllers"))
switch_parts_iff n = (
  λ e.
      let (u, k, c) = ok_of_bind (need_key n "id") _ e in
      ((need_key_iff n "id").0 k, (controllers_of_iff _).0 c),
  λ (k, c). rw ((need_key_iff n "id").1 k) ((controllers_of_iff _).1 c),
)

check_switch_iff : (n : Node) → (check_switch n ≡ ok tt) ↔ SwitchKeyed n
unfolding check_switch
check_switch_iff n = elim (Bool-cases (is_element n)) [
  | inl el ↦ elim (Bool-cases (named n "switch")) [
    | inl sw ↦
        let parts = switch_parts_iff n in
        rw (el, sw)
          (
            (λ e. let (k, c) = parts.0 e in ((λ _ _. k), λ _ _. c)),
            λ (k, c). parts.1 (k refl refl, c refl refl),
          )
    | inr other ↦ rw (el, other) ((λ e. ((λ _ h. cc), λ _ h c. cc)), λ h. refl)
  ]
  | inr no_element ↦ rw no_element ((λ e. ((λ h _. cc), λ h _ c. cc)), λ h. refl)
]

check_section_iff : (n : Node) → (check_section n ≡ ok tt) ↔ SectionKeyed n
unfolding check_section
check_section_iff n =
    let switches = check_each_iff check_switch SwitchKeyed check_switch_iff (children n) in
    let resources = check_each_iff check_resource ResourceKeyed check_resource_iff (children n) in
    elim (Bool-cases (named n "resources")) [
      | inl e ↦ ground (arith, resources, other_name n "resources" "logical-switches" refl e)
      | inr e ↦ ground (arith, switches)
    ]

-- Below the root element, where there is one.
abbrev pub RootKeyed : Option Node → Type 0
RootKeyed none = Unit
RootKeyed (some root) = All SectionKeyed (children root)

check_root_iff : (o : Option Node) → (check_root o ≡ ok tt) ↔ RootKeyed o
check_root_iff none = (λ e. tt, λ h. refl)
check_root_iff (some root) =
    check_each_iff check_section SectionKeyed check_section_iff (children root)

-- A document is accepted exactly when, below its root element, each port under `resources` has a
-- name, each queue and certificate a resource-id, each flow-table a table-id, and each switch under
-- `logical-switches`, and each controller of the first `controllers` of a switch, an id.
pub check_keys_iff : (doc : Doc) → (check_keys (some doc) ≡ ok tt) ↔ RootKeyed (root_element doc)
unfolding check_keys
check_keys_iff doc = check_root_iff (root_element doc)
