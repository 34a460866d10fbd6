-- ===== src/Vm/Tests.antt =====
-- The virtual machine: the theorems at a memory inside one call, and at natural numbers for floats.
use icn_covm.Prelude.{
  ℕ, ◌+◌, ◌-◌, ◌*◌, ◌≡◌, true, [], ◌∷◌, Text, text, ◌==◌, Dict, lookup, refl, ltb, nat_eq,
}
use icn_covm.Prelude.Decimal.{print, parse}
use icn_covm.Vm.Values.{Floats, boolean}
use icn_covm.Vm.Machine
use icn_covm.Vm.Machine.{Vm}
use icn_covm.Vm.Machine.Parameters.{parameter_value, set_parameters}
use icn_covm.Vm.Machine.Parameters.Texts.{Got, get_parameter-set_parameters}
use icn_covm.Vm.Memory.{get_parameter, VmMemory, frame_of}
use icn_covm.Vm.Memory.Scopes.{Body, done, then_store, then_return, then_call, call, call-restores}

abbrev pub floats : Floats
floats = record {
  F = ℕ;
  zero_value = 0;
  one = 1;
  add = λ a b. a + b;
  sub = λ a b. a - b;
  mul = λ a b. a * b;
  div = λ a b. a;
  modulo = λ a b. a;
  is_zero = λ a. nat_eq a 0;
  is_equal = nat_eq;
  is_close = nat_eq;
  less = ltb;
  parse = parse;
  print = print;
  to_usize = λ a. a;
  of_nat = λ a. a;
  negate = λ a. 0;
  round = λ a. a;
}

abbrev memory : VmMemory ℕ ℕ
memory = record {
  memory = (text "x", 1) ∷ [];
  functions = [];
  call_stack = 0 ∷ [];
  call_frames = frame_of (text "f") ((text "y", 2) ∷ []) ∷ [];
  parameters = [];
  string_metadata = [];
}

-- a body that stores, calls another function that stores and returns, and stores again
abbrev body : Body ℕ
body = then_store (text "x") 5 (
    then_call (text "g") [] (then_store (text "x") 6 (then_return 7 done))
      (then_store (text "z") 8 done))

call-restores_example : call (text "f") [] body memory ≡ memory
call-restores_example = call-restores (text "f") [] body memory

abbrev given_parameters : Dict Text
given_parameters = (text "dry_run", text "TRUE") ∷ (text "title", text "Budget") ∷ []

abbrev machine : Vm ℕ ℕ ℕ ℕ
machine = Machine.new

get_parameter-set_parameters_example :
    Got floats
      (text "dry_run")
      (lookup (text "dry_run") given_parameters)
      (lookup (text "dry_run") machine.memory.parameters)
      (get_parameter (text "dry_run") (set_parameters floats given_parameters machine).memory)
get_parameter-set_parameters_example =
    get_parameter-set_parameters floats given_parameters machine (text "dry_run")

-- The word is read in any case.
dry_run_value : parameter_value floats (text "TRUE") ≡ boolean true
unfolding parameter_value text ◌==◌
dry_run_value = refl
