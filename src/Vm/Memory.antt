-- ===== src/Vm/Memory.antt =====
-- vm/memory.rs: variables, functions and call frames. `V` is the type of values and `Ops` that of
-- blocks of operations. The call stack has its top first, the call frames the newest last, as in the source.
pub mod Scopes
pub mod Display
use icn_covm.Prelude.{
  ℕ, zero, suc, ◌+◌, ◌-◌, Bool, true, false, Option, none, some, is_some, List, [], ◌∷◌, ◌++◌, Text,
  text, Dict, lookup, insert, length, get_elem?, if◌then◌else◌, ltb,
}
use icn_covm.Prelude.Actions.{Result, ok, err, ok_or}
use icn_covm.Vm.Error.{
  VmError, undefined_variable, undefined_function, undefined_parameter, not_implemented,
}

pub record CallFrame (V : Type 0) : Type 0 where
  pub memory : Dict V
  pub params : Dict V
  pub return_value : Option V
  pub function_name : Text

pub record VmMemory (V Ops : Type 0) : Type 0 where
  pub memory : Dict V
  pub functions : Dict (List Text × Ops)
  pub call_stack : List ℕ
  pub call_frames : List (CallFrame V)
  pub parameters : Dict Text
  pub string_metadata : Dict Text

-- `f(&mut v[i])`; the source panics where `i` is out of bounds, here nothing changes.
abbrev pub modify_at {ℓ} : {A : Type ℓ} → (A → A) → ℕ → List A → List A
modify_at f i [] = []
modify_at f zero (x ∷ xs) = f x ∷ xs
modify_at f (suc i) (x ∷ xs) = x ∷ modify_at f i xs

-- `last_mut`
abbrev pub modify_last {ℓ} : {A : Type ℓ} → (A → A) → List A → List A
modify_last f [] = []
modify_last f (x ∷ []) = f x ∷ []
modify_last f (x ∷ (y ∷ xs)) = x ∷ modify_last f (y ∷ xs)

-- `Vec::pop` without its value, and the value
abbrev pub drop_last {ℓ} : {A : Type ℓ} → List A → List A
drop_last [] = []
drop_last (x ∷ []) = []
drop_last (x ∷ (y ∷ xs)) = x ∷ drop_last (y ∷ xs)

abbrev pub last {ℓ} : {A : Type ℓ} → List A → Option A
last [] = none
last (x ∷ []) = some x
last (x ∷ (y ∷ xs)) = last (y ∷ xs)

abbrev pub pop_top : List ℕ → List ℕ
pop_top [] = []
pop_top (i ∷ is) = is

abbrev pub set_local : {V : Type 0} → Text → V → CallFrame V → CallFrame V
set_local name value f = record f { memory = insert name value f.memory }

abbrev pub first_of : {A : Type 0} → Option A → Option A → Option A
first_of none o = o
first_of (some a) o = some a

-- the local memory of a frame, then its parameters
abbrev pub frame_lookup : {V : Type 0} → Text → Option (CallFrame V) → Option V
frame_lookup name none = none
frame_lookup name (some f) = first_of (lookup name f.memory) (lookup name f.params)

abbrev pub current : {V : Type 0} → List ℕ → List (CallFrame V) → Option (CallFrame V)
current [] frames = none
current (i ∷ is) frames = get_elem? frames i

-- a new frame
abbrev pub frame_of : {V : Type 0} → Text → Dict V → CallFrame V
frame_of function_name params = record {
  memory = [];
  params = params;
  return_value = none;
  function_name = function_name;
}

abbrev pub with_value : {V : Type 0} → V → CallFrame V → CallFrame V
with_value value f = record f { return_value = some value }

module _ {V Ops : Type 0} where
  abbrev pub new : VmMemory V Ops
  new = record {
    memory = [];
    functions = [];
    call_stack = [];
    call_frames = [];
    parameters = [];
    string_metadata = [];
  }

  pub get_string_metadata : Text → VmMemory V Ops → Option Text
  get_string_metadata key m = lookup key m.string_metadata

  pub set_string_metadata : Text → Text → VmMemory V Ops → VmMemory V Ops
  set_string_metadata key value m = record m {
    string_metadata = insert key value m.string_metadata;
  }

  abbrev pub store_at : Text → V → List ℕ → VmMemory V Ops → VmMemory V Ops
  store_at name value [] m = record m { memory = insert name value m.memory }
  store_at name value (i ∷ is) m = record m {
    call_frames = modify_at (set_local name value) i m.call_frames;
  }

  unfoldable pub store : Text → V → VmMemory V Ops → VmMemory V Ops
  store name value m = store_at name value m.call_stack m

  unfoldable pub load : Text → VmMemory V Ops → Result VmError V
  load name m =
      ok_or
        (first_of (frame_lookup name (current m.call_stack m.call_frames)) (lookup name m.memory))
        (undefined_variable name)

  unfoldable pub define_function : Text → List Text → Ops → VmMemory V Ops → VmMemory V Ops
  define_function name params body m = record m {
    functions = insert name (params, body) m.functions;
  }

  unfoldable pub get_function : Text → VmMemory V Ops → Result VmError (List Text × Ops)
  get_function name m = ok_or (lookup name m.functions) (undefined_function name)

  -- the memory with the new frame, and the frame's index
  unfoldable pub push_call_frame : Text → Dict V → VmMemory V Ops → ℕ × VmMemory V Ops
  push_call_frame function_name params m = (
    length m.call_frames,
    record m {
      call_frames = m.call_frames ++ frame_of function_name params ∷ [];
      call_stack = length m.call_frames ∷ m.call_stack;
    },
  )

  unfoldable pub pop_call_frame : VmMemory V Ops → Option (CallFrame V) × VmMemory V Ops
  pop_call_frame m = (
    last m.call_frames,
    record m { call_stack = pop_top m.call_stack; call_frames = drop_last m.call_frames },
  )

  pub current_call_frame : VmMemory V Ops → Option (CallFrame V)
  current_call_frame m = last m.call_frames

  abbrev pub set_if : Bool → V → VmMemory V Ops → Result VmError (Unit {0}) × VmMemory V Ops
  set_if in_call value m =
      if in_call
      then (ok tt, record m { call_frames = modify_last (with_value value) m.call_frames })
      else (err (not_implemented (text "Cannot return outside a function")), m)

  -- the memory after the call, and the result
  unfoldable pub set_return_value : V → VmMemory V Ops → Result VmError (Unit {0}) × VmMemory V Ops
  set_return_value value m = set_if (ltb 0 (length m.call_frames)) value m

  unfoldable pub get_parameter : Text → VmMemory V Ops → Result VmError Text
  get_parameter name m = ok_or (lookup name m.parameters) (undefined_parameter name)

  -- `store_param`, given the text of the value
  unfoldable pub store_param : Text → Text → VmMemory V Ops → VmMemory V Ops
  store_param key value m = record m { parameters = insert key value m.parameters }

  -- `in_function_call`
  unfoldable pub in_function_call : VmMemory V Ops → Bool
  in_function_call m = ltb 0 (length m.call_stack)
