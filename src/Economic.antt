-- ===== src/Economic.antt =====
-- storage/traits.rs, `EconomicOperations`: resources and balances over any storage backend.
pub mod Interface
pub mod InMemoryBackend
pub mod Balances
pub mod Moves
pub mod Keys
pub mod Supply
pub mod Tests
use icn_covm.Prelude.{
  ℕ, ◌+◌, ◌-◌, ◌%◌, ◌^◌, Bool, true, false, Option, none, some, List, [], ◌∷◌, ◌++◌, Text, text,
  if◌then◌else◌, ltb, not,
}
use icn_covm.Prelude.Decimal.{print, parse}
use icn_covm.Prelude.Actions.{
  Result, ok, err, Action, pure, query, fail_if, then_do, resume, ◌>>=◌, ◌>>◌,
}
use icn_covm.Storage.Types.{
  StorageError, StorageResult, StorageEvent, Timestamp, resource_not_found, insufficient_balance,
}
use icn_covm.Storage.InMemory.{Times}
use icn_covm.Economic.Interface.{Backend}

unfoldable pub resource_key : Text → Text
resource_key resource = text "resources/" ++ (resource ++ text "/metadata")

unfoldable pub balance_key : Text → Text → Text
balance_key resource account = text "resources/" ++ (resource ++ (text "/accounts/" ++ account))

unfoldable pub reputation_key : Text → Text
reputation_key identity_id = text "identities/" ++ (identity_id ++ text "/reputation")

-- `from_utf8(bytes)` and `parse::<u64>().unwrap_or(0)`: what is no text is no number either.
unfoldable pub number_or_zero : List ℕ → ℕ
number_or_zero bytes = elim (parse bytes) [ none ↦ 0 | some n ↦ n ]

-- a double quote
abbrev quote : Text
quote = b'"' ∷ []

unfoldable pub resource_metadata : Text → Text → Text
resource_metadata resource namespace =
    text "{"
    ++ (quote
        ++ (text "id"
            ++ (quote
                ++ (text ": "
                    ++ (quote
                        ++ (resource
                            ++ (quote
                                ++ (text ", "
                                    ++ (quote
                                        ++ (text "namespace"
                                            ++ (quote
                                                ++ (text ": "
                                                    ++ (quote
                                                        ++ (namespace
                                                            ++ (quote ++ text "}")))))))))))))))

module _ (B : Backend) where
  open B use {State, user, namespace, contains, get, set}

  unfoldable pub read_number : Text → State → StorageResult ℕ
  read_number key s = then_do (contains key s) (λ present.
      if present then then_do (get key s) (λ bytes. ok (number_or_zero bytes)) else ok 0)

  abbrev pub event : Timestamp → Text → Text → Text → Option StorageEvent
  event now key kind details = some (record {
    event_type = kind;
    user_id = user;
    namespace = namespace;
    key = key;
    timestamp = now;
    details = details;
  })

  unfoldable pub create_resource : Times → Text → Action State StorageError (Unit {0})
  create_resource times resource =
      set times (resource_key resource) (resource_metadata resource namespace)

  abbrev require_resource : Text → Action State StorageError (Unit {0})
  require_resource resource = do
    present ← query (contains (resource_key resource))
    fail_if (not present) (resource_not_found resource)

  abbrev pub insufficient : Text → Text → StorageError
  insufficient account resource =
      insufficient_balance (
        text "Account "
        ++ (account ++ (text " has insufficient balance for resource " ++ resource)))

  -- u64 addition wraps around, as in a release build.
  unfoldable pub mint :
      Times → Timestamp → Text → Text → ℕ → Text → Action State StorageError (Option StorageEvent)
  mint times now resource account amount reason = do
    require_resource resource
    current ← query (read_number (balance_key resource account))
    set times (balance_key resource account) (print ((current + amount) % 2 ^ 64))
    pure (
        event now (balance_key resource account) (text "mint") (
          text "Minted "
          ++ (print amount
              ++ (text " of "
                  ++ (resource ++ (text " for " ++ (account ++ (text ": " ++ reason))))))))

  unfoldable pub burn :
      Times → Timestamp → Text → Text → ℕ → Text → Action State StorageError (Option StorageEvent)
  burn times now resource account amount reason = do
    require_resource resource
    current ← query (read_number (balance_key resource account))
    fail_if (ltb current amount) (insufficient account resource)
    set times (balance_key resource account) (print (current - amount))
    pure (
        event now (balance_key resource account) (text "burn") (
          text "Burned "
          ++ (print amount
              ++ (text " of "
                  ++ (resource ++ (text " from " ++ (account ++ (text ": " ++ reason))))))))

  -- Both balances are read before either is written.
  unfoldable pub transfer :
      Times
      → Times
      → Timestamp
      → Text
      → Text
      → Text
      → ℕ
      → Text
      → Action State StorageError (Option StorageEvent)
  transfer times times' now resource from to amount reason = do
    require_resource resource
    from_balance ← query (read_number (balance_key resource from))
    fail_if (ltb from_balance amount) (insufficient from resource)
    to_balance ← query (read_number (balance_key resource to))
    set times (balance_key resource from) (print (from_balance - amount))
    set times' (balance_key resource to) (print ((to_balance + amount) % 2 ^ 64))
    pure (
        event now (balance_key resource from ++ (text "->" ++ balance_key resource to))
          (text "transfer")
          (text "Transferred "
            ++ (print amount
                ++ (text " of "
                    ++ (resource
                        ++ (text " from "
                            ++ (from ++ (text " to " ++ (to ++ (text ": " ++ reason))))))))))

  unfoldable pub get_balance :
      Timestamp → Text → Text → Action State StorageError (ℕ × Option StorageEvent)
  get_balance now resource account = do
    require_resource resource
    balance ← query (read_number (balance_key resource account))
    pure (
      balance,
      event now (balance_key resource account) (text "get_balance") (
          text "Retrieved balance of "
          ++ (resource ++ (text " for " ++ (account ++ (text ": " ++ print balance))))),
    )

  unfoldable pub get_reputation : Text → State → StorageResult ℕ
  get_reputation identity_id s = read_number (reputation_key identity_id) s

  unfoldable pub set_reputation : Times → Text → ℕ → Action State StorageError (Unit {0})
  set_reputation times identity_id value = set times (reputation_key identity_id) (print value)
