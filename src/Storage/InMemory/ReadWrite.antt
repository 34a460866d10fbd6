-- ===== src/Storage/InMemory/ReadWrite.antt =====
-- InMemoryStorage: what is read after a write or a deletion.
use icn_covm.Prelude.{
  ℕ, ◌≡◌, refl, ◌&&◌, Option, none, some, List, [], ◌∷◌, ◌++◌, Text, text, ◌==◌, ==-refl, lookup_in,
  lookup_in-insert_in, lookup_in-remove_within, if◌then◌else◌, arith,
}
use icn_covm.Prelude.Actions.{ok, err, then_do}
use icn_covm.Storage.Types.{not_found}
use icn_covm.Storage.Auth.{AuthContext}
use icn_covm.Storage.Versioning.{VersionInfo, get_version_history}
use icn_covm.Storage.Versioning.History.{history-next_version, history-new}
use icn_covm.Storage.InMemory.{
  InMemoryStorage, Times, check_permission, make_internal_key, written_version, set, delete,
}
use icn_covm.Storage.InMemory.Writes.{set_inversion, delete_inversion}
use icn_covm.Storage.InMemory.Reads.{get, list_versions}

-- the history of a key, none if it has no version
abbrev pub history_of : Option VersionInfo → List VersionInfo
history_of none = []
history_of (some v) = get_version_history v

module _ {J K : Type 0} (times : Times) (a : AuthContext J) (reader : Option (AuthContext K)) where
  -- After a successful `set`, whoever may read the namespace reads the new value at its key, and at
  -- every other namespace and key a read gives what it gave before, errors included.
  pub get-set :
      (ns key : Text) (v : List ℕ) (s : InMemoryStorage) (ns' key' : Text)
      → (set times (some a) ns key v s).0 ≡ ok tt
      → get reader ns' key' (set times (some a) ns key v s).1 ≡ (
          if ns == ns' && key == key'
          then then_do (check_permission reader (text "read") ns') (λ _. ok v)
          else get reader ns' key' s)
  unfolding get
  get-set ns key v s ns' key' h =
      let (_, values, _) = set_inversion times a ns key v s h in
      rw (values, lookup_in-insert_in) (ground arith)

  -- After a successful `delete`, a permitted read of its key finds nothing, and at every other
  -- namespace and key a read gives what it gave before.
  pub get-delete :
      (ns key : Text) (s : InMemoryStorage) (ns' key' : Text)
      → (delete times (some a) ns key s).0 ≡ ok tt
      → get reader ns' key' (delete times (some a) ns key s).1 ≡ (
          if ns == ns' && key == key'
          then then_do
              (check_permission reader (text "read") ns')
              (λ _. err (not_found (make_internal_key ns' key')))
          else get reader ns' key' s)
  unfolding get
  get-delete ns key s ns' key' h =
      let (_, values, _) = delete_inversion times a ns key s h in
      rw (values, lookup_in-remove_within) (ground arith)

  history-written :
      (now : ℕ) (user : Text) (o : Option VersionInfo)
      → get_version_history (written_version now user o)
        ≡ history_of o ++ written_version now user o ∷ []
  history-written now user none = history-new now user
  history-written now user (some v) = history-next_version now user v

  -- After a successful `set`, the versions listed for the key are those from before, in order, and
  -- then the version that the write made.
  pub list_versions-set :
      (ns key : Text) (v : List ℕ) (s : InMemoryStorage)
      → (set times (some a) ns key v s).0 ≡ ok tt
      → let old = lookup_in ns key s.versions in
        list_versions reader ns key (set times (some a) ns key v s).1
        ≡ then_do (check_permission reader (text "read") ns) (λ _.
          ok (history_of old ++ written_version times.version a.current_identity_did old ∷ []))
  unfolding list_versions
  list_versions-set ns key v s h =
      let (_, _, versions) = set_inversion times a ns key v s h in
      rw (versions, lookup_in-insert_in, ==-refl ns, ==-refl key)
        (rw (history-written times.version a.current_identity_did (lookup_in ns key s.versions))
          refl)
