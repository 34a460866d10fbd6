-- ===== src/Economic/Tests.antt =====
-- The economic operations: the theorems at the in-memory storage, with one resource and two accounts.
use icn_covm.Prelude.{
  ℕ, ◌≤◌, ◌-◌, ◌≡◌, refl, true, false, Option, some, List, [], ◌∷◌, Text, text, ◌==◌, if◌then◌else◌,
  lookup, insert, lookup_in, insert_in, member, add_member, arith,
}
use icn_covm.Prelude.Decimal.{print, parse}
use icn_covm.Prelude.Actions.{Result, ok, err}
use icn_covm.Storage.Types.{StorageError, StorageEvent}
use icn_covm.Storage.Auth.{
  AuthContext, add_role_to_identity, add_role, has_role_for_identity, has_role,
}
use icn_covm.Storage.Auth
use icn_covm.Storage.Resource.{can_store, add_usage, reduce_usage}
use icn_covm.Storage.InMemory.{
  InMemoryStorage, Times, check_permission, account_usage, grow_usage, update_account,
  make_internal_key, set, create_account,
}
use icn_covm.Storage.InMemory
use icn_covm.Storage.InMemory.Reads.{get, contains_key}
use icn_covm.Economic.{
  resource_key, balance_key, number_or_zero, resource_metadata, read_number, create_resource, mint,
  burn, transfer,
}
use icn_covm.Economic.Interface.{Backend}
use icn_covm.Economic.InMemoryBackend.{in_memory}
use icn_covm.Economic.Balances.{balance, mint_balances, burn_balances}
use icn_covm.Economic.Moves.{transfer_balances, Failure, transfer_failed, transfer_to_self}
use icn_covm.Economic.Supply.{Distinct, supply, transfer_conserves_supply}

abbrev times : Times
times = record { account = 1; version = 2; audit = 3 }

abbrev admin : AuthContext ℕ
admin = add_role (text "global") (text "admin") (Auth.new (text "al"))

abbrev backend : Backend
backend = in_memory admin (text "n")

abbrev coin : Text
coin = text "c"

abbrev opened : InMemoryStorage
opened = (create_account times (some admin) (text "al") 900 InMemory.new).1

abbrev created : InMemoryStorage
created = (create_resource backend times coin opened).1

abbrev funded : InMemoryStorage
funded = (mint backend times 4 coin (text "al") 30 [] created).1

abbrev mint_result : Result StorageError (Option StorageEvent)
mint_result = (mint backend times 4 coin (text "al") 30 [] created).0

nothing_held : balance backend coin (text "al") created ≡ ok 0
unfolding set create_account check_permission has_role has_role_for_identity add_role
    add_role_to_identity member add_member lookup insert lookup_in insert_in account_usage
    grow_usage add_usage can_store text ◌==◌ make_internal_key create_resource resource_key
    balance_key resource_metadata read_number get contains_key
nothing_held = refl

thirty_held : balance backend coin (text "al") funded ≡ ok 30
unfolding set create_account check_permission has_role has_role_for_identity add_role
    add_role_to_identity member add_member lookup insert lookup_in insert_in account_usage
    grow_usage add_usage can_store text ◌==◌ make_internal_key create_resource resource_key
    balance_key resource_metadata read_number get contains_key mint print parse number_or_zero
thirty_held = refl

mint_succeeds : (e : Option StorageEvent) × (mint_result ≡ ok e)
unfolding set create_account check_permission has_role has_role_for_identity add_role
    add_role_to_identity member add_member lookup insert lookup_in insert_in account_usage
    grow_usage add_usage can_store text ◌==◌ make_internal_key create_resource resource_key
    balance_key resource_metadata read_number get contains_key mint burn transfer print parse
    number_or_zero
mint_succeeds = (_, refl)

mint_balances_example :
    balance backend coin (text "al") funded
    ≡ (if text "al" == text "al" then ok 30 else balance backend coin (text "al") created)
mint_balances_example =
    mint_balances backend times 4 coin (text "al") 30 [] created 0 (text "al") nothing_held
      (omega arith) mint_succeeds.1

burn_succeeds :
    (e : Option StorageEvent) × ((burn backend times 5 coin (text "al") 10 [] funded).0 ≡ ok e)
unfolding set create_account check_permission has_role has_role_for_identity add_role
    add_role_to_identity member add_member lookup insert lookup_in insert_in account_usage
    grow_usage add_usage can_store text ◌==◌ make_internal_key create_resource resource_key
    balance_key resource_metadata read_number get contains_key mint burn transfer print parse
    number_or_zero
burn_succeeds = (_, refl)

burn_balances_example :
    (10 ≤ 30)
    × (balance backend coin (text "al") (burn backend times 5 coin (text "al") 10 [] funded).1 ≡ (
        if text "al" == text "al" then ok (30 - 10) else balance backend coin (text "al") funded))
burn_balances_example =
    burn_balances backend times 5 coin (text "al") 10 [] funded 30 (text "al") thirty_held
      burn_succeeds.1

abbrev moved : Text → Result StorageError (Option StorageEvent) × InMemoryStorage
moved to = transfer backend times times 6 coin (text "al") to 10 [] funded

transfer_succeeds : (e : Option StorageEvent) × ((moved (text "bo")).0 ≡ ok e)
unfolding set create_account check_permission has_role has_role_for_identity add_role
    add_role_to_identity member add_member lookup insert lookup_in insert_in account_usage
    grow_usage add_usage can_store text ◌==◌ make_internal_key create_resource resource_key
    balance_key resource_metadata read_number get contains_key mint burn transfer print parse
    number_or_zero
transfer_succeeds = (_, refl)

other_balance : balance backend coin (text "bo") funded ≡ ok 0
unfolding set create_account check_permission has_role has_role_for_identity add_role
    add_role_to_identity member add_member lookup insert lookup_in insert_in account_usage
    grow_usage add_usage can_store text ◌==◌ make_internal_key create_resource resource_key
    balance_key resource_metadata read_number get contains_key mint burn transfer print parse
    number_or_zero
other_balance = refl

others_differ : (text "al" == text "bo") ≡ false
unfolding text ◌==◌
others_differ = refl

transfer_balances_example :
    (10 ≤ 30)
    × (balance backend coin (text "bo") (moved (text "bo")).1 ≡ (
        if text "al" == text "bo"
        then ok 20
        else if text "bo" == text "bo"
        then ok 10
        else balance backend coin (text "bo") funded))
transfer_balances_example =
    transfer_balances backend times times 6 coin (text "al") (text "bo") 10 [] funded 30 0
      (text "bo") others_differ thirty_held other_balance (omega arith) transfer_succeeds.1

self_transfer_succeeds : (e : Option StorageEvent) × ((moved (text "al")).0 ≡ ok e)
unfolding set create_account check_permission has_role has_role_for_identity add_role
    add_role_to_identity member add_member lookup insert lookup_in insert_in account_usage
    grow_usage add_usage can_store text ◌==◌ make_internal_key create_resource resource_key
    balance_key resource_metadata read_number get contains_key mint burn transfer print parse
    number_or_zero
self_transfer_succeeds = (_, refl)

transfer_to_self_example : balance backend coin (text "al") (moved (text "al")).1 ≡ ok 40
transfer_to_self_example =
    transfer_to_self backend times times 6 coin (text "al") 10 [] funded 30 thirty_held
      (omega arith) self_transfer_succeeds.1

abbrev accounts : List Text
accounts = text "al" ∷ text "bo" ∷ []

accounts-Distinct : Distinct accounts
unfolding text ◌==◌ member
accounts-Distinct = (refl, (refl, tt))

source_listed : member (text "al") accounts ≡ true
unfolding text ◌==◌ member
source_listed = refl

target_listed : member (text "bo") accounts ≡ true
unfolding text ◌==◌ member
target_listed = refl

transfer_conserves_supply_example :
    supply backend coin accounts (moved (text "bo")).1 ≡ supply backend coin accounts funded
transfer_conserves_supply_example =
    transfer_conserves_supply backend times times 6 coin (text "al") (text "bo") 10 [] funded
      accounts 30 0 accounts-Distinct source_listed target_listed others_differ thirty_held
      other_balance (omega arith) transfer_succeeds.1

-- An account whose quota is used up to the last byte: the shorter balance of the source fits, and the
-- balance of the target does not.
abbrev full : InMemoryStorage
full =
    (mint backend times 4 coin (text "al") 30 []
      (create_resource backend times coin
        (create_account times (some admin) (text "al") 31 InMemory.new).1).1).1

full_known : backend.contains (resource_key coin) full ≡ ok true
unfolding set create_account check_permission has_role has_role_for_identity add_role
    add_role_to_identity member add_member lookup insert lookup_in insert_in account_usage
    grow_usage add_usage can_store text ◌==◌ make_internal_key create_resource resource_key
    balance_key resource_metadata read_number get contains_key mint burn transfer print parse
    number_or_zero update_account reduce_usage
full_known = refl

full_source : balance backend coin (text "al") full ≡ ok 30
unfolding set create_account check_permission has_role has_role_for_identity add_role
    add_role_to_identity member add_member lookup insert lookup_in insert_in account_usage
    grow_usage add_usage can_store text ◌==◌ make_internal_key create_resource resource_key
    balance_key resource_metadata read_number get contains_key mint burn transfer print parse
    number_or_zero update_account reduce_usage
full_source = refl

full_target : balance backend coin (text "bo") full ≡ ok 0
unfolding set create_account check_permission has_role has_role_for_identity add_role
    add_role_to_identity member add_member lookup insert lookup_in insert_in account_usage
    grow_usage add_usage can_store text ◌==◌ make_internal_key create_resource resource_key
    balance_key resource_metadata read_number get contains_key mint burn transfer print parse
    number_or_zero update_account reduce_usage
full_target = refl

full_fails :
    (e : StorageError) × ((transfer backend times times 6 coin (text "al") (text "bo") 30 [] full).0
      ≡ err e)
unfolding set create_account check_permission has_role has_role_for_identity add_role
    add_role_to_identity member add_member lookup insert lookup_in insert_in account_usage
    grow_usage add_usage can_store text ◌==◌ make_internal_key create_resource resource_key
    balance_key resource_metadata read_number get contains_key mint burn transfer print parse
    number_or_zero update_account reduce_usage
full_fails = (_, refl)

transfer_failed_example :
    Failure backend times times 6 coin (text "al") (text "bo") 30 [] full 30 0 full_fails.0
transfer_failed_example =
    transfer_failed backend times times 6 coin (text "al") (text "bo") 30 [] full 30 0 full_fails.0
      full_known full_source full_target full_fails.1

-- The thirty units are gone from the source.
units_lost :
    balance backend coin
      (text "al")
      (transfer backend times times 6 coin (text "al") (text "bo") 30 [] full).1
    ≡ ok 0
unfolding set create_account check_permission has_role has_role_for_identity add_role
    add_role_to_identity member add_member lookup insert lookup_in insert_in account_usage
    grow_usage add_usage can_store text ◌==◌ make_internal_key create_resource resource_key
    balance_key resource_metadata read_number get contains_key mint burn transfer print parse
    number_or_zero update_account reduce_usage
units_lost = refl
