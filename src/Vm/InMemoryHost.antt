-- ===== src/Vm/InMemoryHost.antt =====
-- storage/traits.rs, `store` and `load`, and the in-memory storage as the backend of the machine. What
-- the caller's absence leads to is written out, since the economic operations take a caller.
use icn_covm.Prelude.{ℕ, ◌≡◌, refl, Option, none, some, List, Text, text, ◌++◌, ==-refl}
use icn_covm.Prelude.Actions.{ok, Action, fail, query, pure, ◌>>=◌, ◌>>◌, then_do}
use icn_covm.Storage.Types.{StorageError, StorageEvent, StorageResult, Timestamp, permission_denied}
use icn_covm.Storage.Auth.{AuthContext}
use icn_covm.Storage.InMemory.{InMemoryStorage, Times, set}
use icn_covm.Storage.InMemory.Reads.{get}
use icn_covm.Storage.InMemory.Transactions.{
  begin_transaction, commit_transaction, rollback_transaction,
}
use icn_covm.Economic
use icn_covm.Economic.InMemoryBackend.{in_memory, get-set_here}
use icn_covm.Vm.Values.{Floats, TypedValue, to_text}
use icn_covm.Vm.Types.{Op}
use icn_covm.Vm.Execution.{Host, VmExecution}
use icn_covm.Vm.Execution.Persistence.{MissingKeyBehavior, execute_store_p, execute_load_p}
use icn_covm.Vm.Execution.RoundTrip.{FloatText, IsText, reloaded, execute_load_p-execute_store_p}

abbrev pub no_event : {A : Type 0} → StorageResult A → StorageResult (A × Option StorageEvent)
no_event r = then_do r (λ a. ok (a, none))

module _ {J : Type 0} where
  abbrev caller : Option (AuthContext J) → Text
  caller none = text "system"
  caller (some a) = a.current_identity_did

  abbrev pub key_event :
      Timestamp → Option (AuthContext J) → Text → Text → Text → Text → StorageEvent
  key_event now auth namespace key kind details = record {
    event_type = kind;
    user_id = caller auth;
    namespace = namespace;
    key = key;
    timestamp = now;
    details = details ++ key;
  }

  unfoldable pub store :
      Times
      → Option (AuthContext J)
      → (namespace key : Text) → List ℕ
      → Action InMemoryStorage StorageError (Option StorageEvent)
  store times auth namespace key value = do
    set times auth namespace key value
    pure (
        some
          (key_event times.audit auth namespace key (text "store") (text "Stored data for key ")))

  unfoldable pub load :
      Timestamp
      → Option (AuthContext J)
      → (namespace key : Text) → Action InMemoryStorage StorageError (List ℕ × Option StorageEvent)
  load now auth namespace key = do
    bytes ← query (get auth namespace key)
    pure
        (bytes, some (key_event now auth namespace key (text "load") (text "Loaded data for key ")))

  -- an operation of a caller; without one the first access to storage is refused
  abbrev pub as_caller :
      {A : Type 0}
      → Text
      → (AuthContext J → Text → Action InMemoryStorage StorageError A)
      → Option (AuthContext J)
      → Text
      → Action InMemoryStorage StorageError A
  as_caller action f none namespace = fail (permission_denied (text "anonymous") action namespace)
  as_caller action f (some a) namespace = f a namespace

  store_lem :
      (times : Times) (a : AuthContext J) (ns key : Text) (value : List ℕ) (s : InMemoryStorage)
      → (set times (some a) ns key value s).0 ≡ ok tt
      → store times (some a) ns key value s ≡ (
        ok (
            some
              (key_event times.audit (some a) ns key (text "store") (text "Stored data for key "))),
        (set times (some a) ns key value s).1,
      )
  unfolding store
  store_lem times a ns key value s w = rw (w) refl

  -- what was stored is read at the same key
  load-store :
      (times : Times) (now : Timestamp) (a : AuthContext J) (ns key : Text) (value : List ℕ)
      (s : InMemoryStorage)
      → (set times (some a) ns key value s).0 ≡ ok tt
      → load now (some a) ns key (set times (some a) ns key value s).1 ≡ (
        ok (
          value,
          some (key_event now (some a) ns key (text "load") (text "Loaded data for key ")),
        ),
        (set times (some a) ns key value s).1,
      )
  unfolding load
  load-store times now a ns key value s w =
      rw (get-set_here a ns times key value s key w, ==-refl key) refl

module _ (N : Floats) (J D : Type 0) (times : Times) (debug_error : StorageError → Text)
    (debug_op : Op N.F D → Text) (debug_value : TypedValue N.F → Text)
    (debug_amount : Option N.F → Text) (debug_duration : D → Text) where
  open N use {F}

  abbrev pub in_memory_host : Host N
  in_memory_host = record {
    J = J;
    S = InMemoryStorage;
    D = D;
    create_resource = λ auth namespace resource.
        as_caller (text "write") (λ a ns. Economic.create_resource (in_memory a ns) times resource)
          auth namespace;
    mint = λ auth namespace resource account amount reason.
        as_caller (text "read")
          (λ a ns. Economic.mint (in_memory a ns) times times.audit resource account amount reason)
          auth namespace;
    transfer = λ auth namespace resource from to amount reason.
        as_caller (text "read")
          (λ a ns.
            Economic.transfer (in_memory a ns) times times times.audit resource from to amount
              reason)
          auth namespace;
    burn = λ auth namespace resource account amount reason.
        as_caller (text "read")
          (λ a ns. Economic.burn (in_memory a ns) times times.audit resource account amount reason)
          auth namespace;
    get_balance = λ auth namespace resource account.
        as_caller (text "read")
          (λ a ns. Economic.get_balance (in_memory a ns) times.audit resource account) auth
          namespace;
    get_reputation = λ auth namespace identity_id.
        as_caller (text "read")
          (λ a ns. query (λ s. no_event (Economic.get_reputation (in_memory a ns) identity_id s)))
          auth namespace;
    set_reputation = λ auth namespace identity_id value.
        as_caller (text "write")
          (λ a ns. Economic.set_reputation (in_memory a ns) times identity_id value >> pure none)
          auth namespace;
    store = store times;
    load = load times.audit;
    begin_transaction = begin_transaction;
    commit_transaction = commit_transaction;
    rollback_transaction = rollback_transaction;
    clock = λ n. times.audit;
    debug_error = debug_error;
    debug_op = debug_op;
    debug_value = debug_value;
    debug_amount = debug_amount;
    debug_duration = debug_duration;
  }

  -- A value that the machine stores in the in-memory storage, where the write succeeds, is loaded as
  -- itself if it is a number, a Boolean or null, and between quotes if it is a string. Of the floats
  -- it is assumed that they are printed as UTF-8 texts that parse to them, and that neither the words
  -- for other values nor a quote begins one.
  pub in_memory_round_trip :
      (key : Text) (v : TypedValue F) (behavior : MissingKeyBehavior)
      (e : VmExecution InMemoryStorage J) (a : AuthContext J) (s : InMemoryStorage)
      → FloatText N
      → IsText v
      → e.storage_backend ≡ some s
      → e.auth_context ≡ some a
      → (set times (some a) e.namespace key (to_text N v) s).0 ≡ ok tt
      → (execute_load_p in_memory_host key behavior (execute_store_p in_memory_host key v e).1).0
        ≡ ok (reloaded v)
  in_memory_round_trip key v behavior e a s laws t b c w =
      execute_load_p-execute_store_p in_memory_host laws key v behavior e s
        (set times (some a) e.namespace key (to_text N v) s).1
        (set times (some a) e.namespace key (to_text N v) s).1
        (some (
          key_event times.audit (some a) e.namespace key (text "store")
            (text "Stored data for key ")))
        (some (
          key_event times.audit (some a) e.namespace key (text "load")
            (text "Loaded data for key ")))
        t b (rw (c) (store_lem times a e.namespace key (to_text N v) s w))
        (rw (c) (load-store times times.audit a e.namespace key (to_text N v) s w))
