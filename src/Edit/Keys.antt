-- ===== src/Edit/Keys.antt =====
-- `check_keys` of server/edit-config.c: each entry of a list names its key.
pub mod Complete
use of_config.Base.{String, not, ◌||◌, Option, none, some, List, [], ◌∷◌, if◌then◌else◌}
use of_config.Error.{◌>>=◌, ◌>>◌, Result, ok, fail, NcErr, bad_element_msg}
use of_config.Xml.{Node, Doc, name, named, children, is_element, go2node}

abbrev pub misses_key : Node → NcErr
misses_key n = bad_element_msg (name n) "The list element misses key."

-- `if (!go2node(n, key)) goto error`
abbrev pub present_or : Option Node → Node → Result (Unit {0})
present_or none n = fail (some (misses_key n))
present_or (some k) n = ok tt

unfoldable pub need_key : Node → String → Result (Unit {0})
need_key n key = present_or (go2node (some n) key) n

-- the loops over siblings, which leave at the first error
unfoldable pub check_each : (Node → Result (Unit {0})) → List Node → Result (Unit {0})
check_each check [] = ok tt
check_each check (n ∷ rest) = do check n; check_each check rest

-- an entry below `resources`
unfoldable pub check_resource : Node → Result (Unit {0})
check_resource n =
    if not (is_element n)
    then ok tt
    else if named n "port"
    then need_key n "name"
    else if named n "queue" || named n "owned-certificate" || named n "external-certificate"
    then need_key n "resource-id"
    else if named n "flow-table"
    then need_key n "table-id"
    else ok tt

-- an entry below `controllers`
unfoldable pub check_controller : Node → Result (Unit {0})
check_controller n =
    if not (is_element n) || not (named n "controller") then ok tt else need_key n "id"

abbrev pub controllers_of : Option Node → Result (Unit {0})
controllers_of none = ok tt
controllers_of (some n) = check_each check_controller (children n)

-- an entry below `logical-switches`
unfoldable pub check_switch : Node → Result (Unit {0})
check_switch n =
    if not (is_element n) || not (named n "switch")
    then ok tt
    else (need_key n "id" >>= λ _. controllers_of (go2node (some n) "controllers"))

-- an element below the root
unfoldable pub check_section : Node → Result (Unit {0})
check_section n =
    if not (is_element n)
    then ok tt
    else if named n "resources"
    then check_each check_resource (children n)
    else if named n "logical-switches"
    then check_each check_switch (children n)
    else ok tt

-- `xmlDocGetRootElement`: the first element of the document
abbrev pub root_element : Doc → Option Node
root_element [] = none
root_element (n ∷ rest) = if is_element n then some n else root_element rest

abbrev pub check_root : Option Node → Result (Unit {0})
check_root none = ok tt
check_root (some root) = check_each check_section (children root)

unfoldable pub check_keys : Option Doc → Result (Unit {0})
check_keys none = ok tt
check_keys (some doc) = check_root (root_element doc)
