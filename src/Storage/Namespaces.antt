-- ===== src/Storage/Namespaces.antt =====
-- storage/namespaces.rs: the registry of namespaces.
pub mod Registry
pub mod Search
pub mod Tests
use icn_covm.Prelude.{
  ℕ, zero, suc, ◌+◌, ◌-◌, Bool, true, false, ◌||◌, Option, none, some, List, [], ◌∷◌, ◌++◌, Text,
  text, ◌==◌, Dict, lookup, insert, contains, if◌then◌else◌, ltb, nat_eq, length, take, filter, map,
}
use icn_covm.Prelude.Decimal.{print}
use icn_covm.Prelude.Actions.{Result, ok, err}
use icn_covm.Prelude.Integers.{ℤ, pos, negsuc}
use icn_covm.Storage.Resource.{saturating_add}

pub record NamespaceMetadata : Type 0 where
  pub path : Text
  pub owner : Text
  pub quota_bytes : ℕ
  pub used_bytes : ℕ
  pub parent : Option Text
  pub attributes : Dict Text

-- `NamespaceRegistry`, its field `namespaces`
abbrev pub Registry : Type 0
Registry = Dict NamespaceMetadata

abbrev pub orphan : Option Text → Registry → Option Text
orphan none r = none
orphan (some p) r = if contains p r then none else some p

abbrev registered :
    Option Text → Text → NamespaceMetadata → Registry → Result Text (Unit {0}) × Registry
registered none path m r = (ok tt, insert path m r)
registered (some p) path m r = (err (text "Parent namespace " ++ (p ++ text " does not exist")), r)

unfoldable pub register_namespace :
    Text → Text → ℕ → Option Text → Registry → Result Text (Unit {0}) × Registry
register_namespace path owner quota parent r =
    if contains path r
    then (err (text "Namespace " ++ (path ++ text " already exists")), r)
    else registered (orphan parent r) path
        (record {
          path = path;
          owner = owner;
          quota_bytes = quota;
          used_bytes = 0;
          parent = parent;
          attributes = [];
        })
        r

pub get_namespace : Text → Registry → Option NamespaceMetadata
get_namespace path r = lookup path r

-- The change of one namespace's usage. The least i64 has no opposite: the source negates it, which
-- wraps to the same 2 ^ 63 bytes in a release build and panics in a debug build.
abbrev updated : Text → NamespaceMetadata → ℤ → Registry → Result Text (Unit {0}) × Registry
updated path m (pos n) r =
    if ltb m.quota_bytes (saturating_add m.used_bytes n)
    then (
      err (
          text "Quota exceeded for namespace "
          ++ (path
              ++ (text ": "
                  ++ (print (saturating_add m.used_bytes n)
                      ++ (text " of " ++ (print m.quota_bytes ++ text " bytes")))))),
      r,
    )
    else (ok tt, insert path (record m { used_bytes = saturating_add m.used_bytes n }) r)
updated path m (negsuc n) r =
    (ok tt, insert path (record m { used_bytes = m.used_bytes - (n + 1) }) r)

unfoldable pub update_resource_usage : Text → ℤ → Registry → Result Text (Unit {0}) × Registry
update_resource_usage path bytes_delta r = elim (lookup path r) [
  | none ↦ (err (text "Namespace " ++ (path ++ text " does not exist")), r)
  | some m ↦ updated path m bytes_delta r
]

abbrev is_parent : Text → Option Text → Bool
is_parent path none = false
is_parent path (some p) = p == path

pub list_children : Text → Registry → List NamespaceMetadata
list_children path r = filter (λ m. is_parent path m.parent) (map (λ e. e.1) r)

pub exists : Text → Registry → Bool
exists path r = contains path r

abbrev pub first_or_later : Bool → Option ℕ → Option ℕ
first_or_later b (some i) = some (suc i)
first_or_later true none = some 0
first_or_later false none = none

-- `rfind('/')`
abbrev pub last_slash : Text → Option ℕ
last_slash [] = none
last_slash (c ∷ cs) = first_or_later (nat_eq c b'/') (last_slash cs)

abbrev pub front : Option ℕ → Text → Text
front none path = []
front (some i) path = take i path

-- Index 0 gives the empty front, as the source's second branch does.
unfoldable pub parent_namespace : Text → Text
parent_namespace path = front (last_slash path) path

-- one pass: what is registered here, whether this is the root, and the rest of the search
abbrev pub pass :
    {A : Type 0} → Option NamespaceMetadata → Bool → (Option NamespaceMetadata → A) → A → A
pass (some m) root return rest = return (some m)
pass none true return rest = return none
pass none false return rest = rest

-- The loop; the inner `none` is the source's, the outer one says that the fuel ran out.
unfoldable pub search : ℕ → Text → Registry → Option (Option NamespaceMetadata)
search zero path r = none
search (suc fuel) path r =
    pass (lookup path r) (parent_namespace path == path) some
      (search fuel (parent_namespace path) r)

abbrev pub or_none : {A : Type 0} → Option (Option A) → Option A
or_none none = none
or_none (some o) = o

-- A parent is shorter than its path, so there are at most as many passes as bytes, and one more.
unfoldable pub find_namespace_or_parent : Text → Registry → Option NamespaceMetadata
unfolding search
find_namespace_or_parent path r = or_none (search (length path + 1) path r)

unfoldable pub has_permission : Text → Text → Text → Registry → Bool
has_permission user action path r = elim (find_namespace_or_parent path r) [
  | none ↦ false
  | some m ↦
      if m.owner == user
      then true
      else if action == text "read"
      then true
      else if action == text "write"
      then m.owner == user
      else false
]
