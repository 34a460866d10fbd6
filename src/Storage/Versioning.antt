-- ===== src/Storage/Versioning.antt =====
-- storage/versioning.rs: a version with its chain of predecessors, and the bounded version store.
pub mod History
pub mod Store
use icn_covm.Prelude.{
  ℕ, ◌+◌, Bool, Option, none, some, List, [], ◌∷◌, ◌++◌, Text, if◌then◌else◌, nat_eq, ltb, length,
  find, map,
}
use icn_covm.Storage.Types.{Timestamp}
use icn_covm.Storage.Resource.{saturating_add}

-- `prev_version` is `None` in `first` and `Some(prev)` in `later`.
pub data VersionInfo : Type 0 where
  first : (version : ℕ) (created_by : Text) (timestamp : Timestamp) → VersionInfo
  later :
      (version : ℕ) (created_by : Text) (timestamp : Timestamp) (prev : VersionInfo) → VersionInfo

abbrev pub version : VersionInfo → ℕ
version (first n _ _) = n
version (later n _ _ _) = n

abbrev pub new : Timestamp → Text → VersionInfo
new now created_by = first 1 created_by now

unfoldable pub next_version : Timestamp → Text → VersionInfo → VersionInfo
next_version now created_by v = later (saturating_add (version v) 1) created_by now v

-- the loop of `get_version_history`, on the list of versions gathered so far; newest first
gather : VersionInfo → List VersionInfo
gather (first n by at) = first n by at ∷ []
gather (later n by at prev) = later n by at prev ∷ gather prev

-- `history.reverse()`
abbrev reverse_onto : List VersionInfo → List VersionInfo → List VersionInfo
reverse_onto [] ys = ys
reverse_onto (x ∷ xs) ys = reverse_onto xs (x ∷ ys)

unfoldable pub get_version_history : VersionInfo → List VersionInfo
unfolding gather
get_version_history v = reverse_onto (gather v) []

-- the `while let Some(prev)` loop of `get_version`
search_back : ℕ → VersionInfo → Option VersionInfo
search_back n (first _ _ _) = none
search_back n (later _ _ _ prev) =
    let rest = search_back n prev in if nat_eq (version prev) n then some prev else rest

unfoldable pub get_version : ℕ → VersionInfo → Option VersionInfo
unfolding search_back
get_version n v =
    if nat_eq n (version v) then some v else if ltb (version v) n then none else search_back n v

-- `VersionStore`: a deque, oldest version at the front
pub record VersionStore (T : Type 0) : Type 0 where
  pub versions : List (VersionInfo × T)
  pub max_versions : ℕ

module _ {T : Type 0} where
  -- `while versions.len() > max { versions.pop_front() }`
  trim : ℕ → List (VersionInfo × T) → List (VersionInfo × T)
  trim max [] = []
  trim max (x ∷ xs) = let rest = trim max xs in if ltb max (length (x ∷ xs)) then rest else x ∷ xs

  unfoldable pub add_version : VersionInfo → T → VersionStore T → VersionStore T
  unfolding trim
  add_version info contents s = record s {
    versions = trim s.max_versions (s.versions ++ (info, contents) ∷ []);
  }

  abbrev last : List (VersionInfo × T) → Option (VersionInfo × T)
  last [] = none
  last (x ∷ []) = some x
  last (x ∷ (y ∷ xs)) = last (y ∷ xs)

  unfoldable pub get_current : VersionStore T → Option (VersionInfo × T)
  get_current s = last s.versions

  unfoldable pub get_stored : VersionStore T → ℕ → Option (VersionInfo × T)
  get_stored s n = find (λ e. nat_eq (version e.0) n) s.versions

  pub list_versions : VersionStore T → List VersionInfo
  list_versions s = map (λ e. e.0) s.versions
