-- ===== src/Vm/Machine/Parameters.antt =====
-- vm/vm.rs and vm/memory.rs: the parameters of a run, which come as texts. A `HashMap` has no order;
-- the entries are stored from the last one on.
pub mod Texts
use icn_covm.Prelude.{
  ℕ, ◌+◌, Bool, true, false, ◌&&◌, Option, none, some, [], ◌∷◌, Text, text, ◌==◌, Dict, insert, map,
  if◌then◌else◌, ltb,
}
use icn_covm.Vm.Values.{Floats, TypedValue, number, boolean, string, null, print_bool}
use icn_covm.Vm.Memory.{VmMemory, store_param}
use icn_covm.Vm.Machine.{Vm}

-- `eq_ignore_ascii_case`
abbrev pub lower : ℕ → ℕ
lower c = if ltb 64 c && ltb c 91 then c + 32 else c

abbrev pub same_word : Text → Text → Bool
same_word s t = map lower s == map lower t

module _ (N : Floats) where
  open N use {F}

  abbrev pub number_or_text : Option F → Text → TypedValue F
  number_or_text none t = string t
  number_or_text (some n) t = number n

  unfoldable pub parameter_value : Text → TypedValue F
  parameter_value t =
      if same_word t (text "true")
      then boolean Bool.true
      else if same_word t (text "false")
      then boolean Bool.false
      else number_or_text (N.parse t) t

  -- the text of a parameter in `store_param`
  unfoldable pub parameter_text : TypedValue F → Text
  parameter_text (number n) = N.print n
  parameter_text (boolean b) = print_bool b
  parameter_text (string s) = s
  parameter_text null = text "null"

  abbrev variable_value : Option F → Text → TypedValue F
  variable_value (some n) t = number n
  variable_value none t =
      if t == text "true"
      then boolean Bool.true
      else if t == text "false"
      then boolean Bool.false
      else if t == text "null"
      then null
      else string t

  abbrev with_variables : Dict Text → Dict (TypedValue F) → Dict (TypedValue F)
  with_variables [] memory = memory
  with_variables ((key, t) ∷ rest) memory =
      insert key (variable_value (N.parse t) t) (with_variables rest memory)

  module _ {Ops : Type 0} where
    abbrev pub stored : Dict Text → VmMemory (TypedValue F) Ops → VmMemory (TypedValue F) Ops
    stored [] m = m
    stored ((key, t) ∷ rest) m =
        store_param key (parameter_text (parameter_value t)) (stored rest m)

    -- `set_parameters` of the machine's memory: the parameters are replaced, and each is a variable
    unfoldable pub set_memory_parameters :
        Dict Text → VmMemory (TypedValue F) Ops → VmMemory (TypedValue F) Ops
    set_memory_parameters parameters m = record m {
      parameters = parameters;
      memory = with_variables parameters m.memory;
    }

  unfoldable pub set_parameters : {D S J : Type 0} → Dict Text → Vm F D S J → Vm F D S J
  set_parameters parameters vm = record vm { memory = stored parameters vm.memory }
