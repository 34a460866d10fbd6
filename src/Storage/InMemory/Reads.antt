-- ===== src/Storage/InMemory/Reads.antt =====
-- storage/implementations/in_memory.rs: the operations that only read.
use icn_covm.Prelude.{
  ℕ, ◌+◌, Bool, true, ◌&&◌, Option, none, some, List, [], ◌∷◌, ◌++◌, Text, text, ◌==◌, Dict,
  lookup_in, entries, contains, starts_with, if◌then◌else◌, nat_eq, length, take, find, filter, map,
  not,
}
use mathlib.Core.List.{reverse}
use icn_covm.Prelude.Decimal.{print}
use icn_covm.Prelude.Actions.{ok, err, ok_or, then_do}
use icn_covm.Storage.Types.{
  StorageResult, StorageEvent, authentication_error, permission_denied, not_found,
  transaction_error,
}
use icn_covm.Storage.Auth.{AuthContext, has_role}
use icn_covm.Storage.Versioning
use icn_covm.Storage.Versioning.{VersionInfo, get_version_history}
use icn_covm.Storage.InMemory.{InMemoryStorage, check_permission, make_internal_key}

module _ {J : Type 0} (auth : Option (AuthContext J)) where
  unfoldable pub get : Text → Text → InMemoryStorage → StorageResult (List ℕ)
  get namespace key s =
      then_do (check_permission auth (text "read") namespace) (λ _.
        ok_or (lookup_in namespace key s.values) (not_found (make_internal_key namespace key)))

  unfoldable pub get_versioned :
      Text → Text → InMemoryStorage → StorageResult (List ℕ × VersionInfo)
  get_versioned namespace key s = then_do (check_permission auth (text "read") namespace) (λ _.
      then_do
        (ok_or (lookup_in namespace key s.values) (not_found (make_internal_key namespace key)))
        (λ value.
          then_do
            (ok_or (lookup_in namespace key s.versions)
              (transaction_error (text "No version info for existing key " ++ key)))
            (λ version. ok (value, version))))

  -- `map_or(true, |x| x == y)`
  abbrev pub matches : Option Text → Text → Bool
  matches none y = true
  matches (some x) y = y == x

  abbrev pub or_global : Option Text → Text
  or_global none = text "global"
  or_global (some ns) = ns

  unfoldable pub get_audit_log :
      Option Text → Option Text → ℕ → InMemoryStorage → StorageResult (List StorageEvent)
  get_audit_log namespace event_type limit s =
      then_do
        (ok_or auth (
          authentication_error
            (text "Authentication required for view_audit_log on " ++ or_global namespace)))
        (λ a.
          if not (has_role a (text "global") (text "admin"))
            && not (has_role a (or_global namespace) (text "admin"))
          then err (
              permission_denied a.current_identity_did (text "view_audit_log")
                (or_global namespace))
          else ok (
              take limit (
                reverse (
                  filter (λ e. matches namespace e.namespace && matches event_type e.event_type)
                    s.audit_log))))

  -- Versions 1 to 3 come with fixed texts, a stand-in in the source for contents it does not keep.
  abbrev version_contents : ℕ → List ℕ → List ℕ
  version_contents n latest =
      if nat_eq n 1
      then text "Initial draft"
      else if nat_eq n 2
      then text "Revised draft"
      else if nat_eq n 3
      then text "Final version"
      else latest

  unfoldable pub list_versions : Text → Text → InMemoryStorage → StorageResult (List VersionInfo)
  list_versions namespace key s = then_do (check_permission auth (text "read") namespace) (λ _.
      then_do (ok_or (lookup_in namespace key s.versions) (not_found key))
        (λ v. ok (get_version_history v)))

  unfoldable pub get_version :
      Text → Text → ℕ → InMemoryStorage → StorageResult (List ℕ × VersionInfo)
  get_version namespace key n s = then_do (list_versions namespace key s) (λ history.
      let missing = not_found (key ++ (text " (version " ++ (print n ++ text ")"))) in
      then_do (ok_or (find (λ v. nat_eq (Versioning.version v) n) history) missing) (λ target.
        then_do (ok_or (lookup_in namespace key s.values) missing)
          (λ latest. ok (version_contents n latest, target))))

  abbrev has_prefix : Option Text → Text → Bool
  has_prefix none key = true
  has_prefix (some p) key = starts_with key p

  unfoldable pub list_keys : Text → Option Text → InMemoryStorage → StorageResult (List Text)
  list_keys namespace prefix s =
      then_do (check_permission auth (text "read") namespace)
        (λ _. ok (filter (has_prefix prefix) (map (λ e. e.0) (entries namespace s.values))))

  abbrev total_size : Dict (List ℕ) → ℕ
  total_size [] = 0
  total_size ((_, v) ∷ m) = length v + total_size m

  unfoldable pub get_usage : Text → InMemoryStorage → StorageResult ℕ
  get_usage namespace s =
      then_do (check_permission auth (text "read") namespace)
        (λ _. ok (total_size (entries namespace s.values)))

  -- `contains` asks for no permission.
  unfoldable pub contains_key : Text → Text → InMemoryStorage → StorageResult Bool
  contains_key namespace key s = ok (contains key (entries namespace s.values))
