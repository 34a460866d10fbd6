-- ===== src/Vm/Execution/Tests.antt =====
-- The execution engine: the round trip of a string through the in-memory storage, over floats of which
-- there are two.
use icn_covm.Prelude.{
  ℕ, ◌≡◌, refl, Bool, true, false, not, ◌&&◌, ◌||◌, Option, none, some, [], Text, text, ◌==◌,
  if◌then◌else◌, lookup, insert, lookup_in, insert_in, member, add_member,
}
use icn_covm.Prelude.Actions.{ok}
use icn_covm.Storage.Auth.{
  AuthContext, add_role_to_identity, add_role, has_role_for_identity, has_role,
}
use icn_covm.Storage.Auth
use icn_covm.Storage.Resource.{can_store, add_usage}
use icn_covm.Storage.InMemory.{
  InMemoryStorage, Times, check_permission, account_usage, grow_usage, update_account,
  make_internal_key, set, create_account,
}
use icn_covm.Storage.InMemory
use icn_covm.Vm.Values.{Floats, string, to_text}
use icn_covm.Vm.Execution
use icn_covm.Vm.Execution.{Host, VmExecution}
use icn_covm.Vm.Execution.Persistence.{default, execute_store_p, execute_load_p}
use icn_covm.Vm.Execution.RoundTrip.{FloatText, reloaded}
use icn_covm.Vm.Execution.Utf8.{is_utf8}
use icn_covm.Vm.InMemoryHost.{in_memory_host, in_memory_round_trip}

abbrev print_bit : Bool → Text
print_bit true = text "1"
print_bit false = text "0"

abbrev parse_bit : Text → Option Bool
parse_bit t = if t == text "1" then some true else if t == text "0" then some false else none

abbrev bits : Floats
bits = record {
  F = Bool;
  zero_value = false;
  one = true;
  add = λ a b. a || b;
  sub = λ a b. a && not b;
  mul = λ a b. a && b;
  div = λ a b. a;
  modulo = λ a b. false;
  is_zero = not;
  is_equal = λ a b. if a then b else not b;
  is_close = λ a b. if a then b else not b;
  less = λ a b. not a && b;
  parse = parse_bit;
  print = print_bit;
  to_usize = λ a. if a then 1 else 0;
  of_nat = λ n. true;
  negate = λ a. a;
  round = λ a. a;
}

bits_text : FloatText bits
unfolding text ◌==◌ is_utf8
bits_text = record {
  parse-print = elim [ true ↦ refl | false ↦ refl ];
  is_utf8-print = elim [ true ↦ refl | false ↦ refl ];
  parse-true = refl;
  parse-false = refl;
  parse-null = refl;
  parse-quote = λ t. refl;
}

abbrev times : Times
times = record { account = 1; version = 2; audit = 3 }

abbrev admin : AuthContext ℕ
admin = add_role (text "global") (text "admin") (Auth.new (text "al"))

abbrev opened : InMemoryStorage
opened = (create_account times (some admin) (text "al") 90 InMemory.new).1

abbrev host : Host bits
host = in_memory_host bits ℕ ℕ times (λ e. []) (λ op. []) (λ v. []) (λ a. []) (λ d. [])

abbrev engine : VmExecution InMemoryStorage ℕ
engine = record Execution.new { storage_backend = some opened; auth_context = some admin }

set_succeeds :
    (set times
      (some admin)
      (text "default")
      (text "k")
      (to_text bits (string (text "hi")))
      opened).0
    ≡ ok tt
unfolding set create_account check_permission has_role has_role_for_identity add_role
    add_role_to_identity member add_member lookup insert lookup_in insert_in account_usage
    grow_usage add_usage can_store text ◌==◌ make_internal_key to_text
set_succeeds = refl

hi_is_utf8 : is_utf8 (text "hi") ≡ true
unfolding is_utf8 text
hi_is_utf8 = refl

in_memory_round_trip_example :
    (execute_load_p host
      (text "k")
      default
      (execute_store_p host (text "k") (string (text "hi")) engine).1).0
    ≡ ok (reloaded (string (text "hi")))
in_memory_round_trip_example =
    in_memory_round_trip bits ℕ ℕ times (λ e. []) (λ op. []) (λ v. []) (λ a. []) (λ d. [])
      (text "k") (string (text "hi")) default engine admin opened bits_text hi_is_utf8 refl refl
      set_succeeds
