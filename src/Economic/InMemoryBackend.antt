-- ===== src/Economic/InMemoryBackend.antt =====
-- The in-memory storage, for one caller and one namespace, is a backend of the economic operations.
use icn_covm.Prelude.{
  ℕ, ◌≡◌, refl, true, some, List, Text, ◌==◌, ==-refl, lookup_in, lookup_in-insert_in,
  if◌then◌else◌, arith,
}
use icn_covm.Prelude.Actions.{ok}
use icn_covm.Storage.Auth.{AuthContext}
use icn_covm.Storage.InMemory.{InMemoryStorage, Times, set}
use icn_covm.Storage.InMemory.Permissions.{write_permits_read}
use icn_covm.Storage.InMemory.Writes.{set_inversion}
use icn_covm.Storage.InMemory.Reads.{get, contains_key}
use icn_covm.Storage.InMemory.ReadWrite.{get-set}
use icn_covm.Economic.Interface.{Backend}

module _ {J : Type 0} (a : AuthContext J) (ns : Text) where
  pub contains_key-set :
      (t : Times) (k : Text) (v : List ℕ) (s : InMemoryStorage) (j : Text)
      → (set t (some a) ns k v s).0 ≡ ok tt
      → contains_key (some a) ns j (set t (some a) ns k v s).1
        ≡ (if k == j then ok true else contains_key (some a) ns j s)
  unfolding contains_key lookup_in
  contains_key-set t k v s j h =
      let (_, values, _) = set_inversion t a ns k v s h in
      let e = lookup_in-insert_in ns k ns j v s.values in rw values (ground (arith, e, ==-refl ns))

  pub get-set_here :
      (t : Times) (k : Text) (v : List ℕ) (s : InMemoryStorage) (j : Text)
      → (set t (some a) ns k v s).0 ≡ ok tt
      → get (some a) ns j (set t (some a) ns k v s).1
        ≡ (if k == j then ok v else get (some a) ns j s)
  get-set_here t k v s j h =
      let (allowed, _, _) = set_inversion t a ns k v s h in
      rw (get-set t a (some a) ns k v s ns j h, write_permits_read (some a) ns allowed, ==-refl ns)
        refl

  abbrev pub in_memory : Backend
  in_memory = record {
    State = InMemoryStorage;
    user = a.current_identity_did;
    namespace = ns;
    contains = contains_key (some a) ns;
    get = get (some a) ns;
    set = λ t. set t (some a) ns;
    contains_set = contains_key-set;
    get_set = get-set_here;
  }
