-- ===== src/Vm/Memory/Scopes.antt =====
-- The memory: what a function call sees, and what it leaves behind.
use icn_covm.Prelude.{
  ℕ, zero, suc, ◌<◌, ◌≡◌, refl, ap, true, Option, none, some, List, [], ◌∷◌, ◌++◌, Text, ◌==◌, ◌⊎◌,
  inl, inr, Dict, lookup-insert, length, length-append, get_elem?, if◌then◌else◌, ltb, arith,
}
use icn_covm.Prelude.Actions.{ok}
use icn_covm.Vm.Memory.{
  CallFrame, VmMemory, modify_at, modify_last, drop_last, set_local, frame_of, store, load,
  push_call_frame, pop_call_frame, set_return_value,
}

-- What the body of a function does with memory, calls of other functions included; `call` is
-- `execute_call` of vm/vm.rs from the new frame to its removal, where the body does not fail.
pub data Body (V : Type 0) : Type 0 where
  done : Body V
  then_store : (name : Text) (value : V) → Body V → Body V
  then_return : (value : V) → Body V → Body V
  then_call : (function_name : Text) (params : Dict V) (callee : Body V) → Body V → Body V

modify_at-last :
    {A : Type 0} (f : A → A) (xs : List A) (x : A)
    → modify_at f (length xs) (xs ++ x ∷ []) ≡ xs ++ f x ∷ []
modify_at-last f [] x = refl
modify_at-last f (y ∷ xs) x = ap (λ ys. y ∷ ys) (modify_at-last f xs x)

modify_last-append :
    {A : Type 0} (f : A → A) (xs : List A) (x : A) → modify_last f (xs ++ x ∷ []) ≡ xs ++ f x ∷ []
modify_last-append f [] x = refl
modify_last-append f (y ∷ []) x = refl
modify_last-append f (y ∷ (z ∷ xs)) x = ap (λ ys. y ∷ ys) (modify_last-append f (z ∷ xs) x)

drop_last-append : {A : Type 0} (xs : List A) (x : A) → drop_last (xs ++ x ∷ []) ≡ xs
drop_last-append [] x = refl
drop_last-append (y ∷ []) x = refl
drop_last-append (y ∷ (z ∷ xs)) x = ap (λ ys. y ∷ ys) (drop_last-append (z ∷ xs) x)

abbrev with_return : {V : Type 0} → V → CallFrame V → CallFrame V
with_return value f = record f { return_value = some value }

abbrev map_some : {A : Type 0} → (A → A) → Option A → Option A
map_some f none = none
map_some f (some a) = some (f a)

-- Outside a call, or with the frame on top of the call stack there.
abbrev pub InBounds : {A : Type 0} → List ℕ → List A → Type 0
InBounds [] frames = Unit
InBounds (i ∷ is) frames = i < length frames

modify_at-get :
    {A : Type 0} (f : A → A) (frames : List A) (i : ℕ)
    → i < length frames
    → get_elem? (modify_at f i frames) i ≡ map_some f (get_elem? frames i)
modify_at-get f [] i h = elim h [ ]
modify_at-get f (x ∷ xs) zero h = refl
modify_at-get f (x ∷ xs) (suc i) h = modify_at-get f xs i (omega arith)

get_elem?-inside :
    {A : Type 0} (xs : List A) (i : ℕ) → i < length xs → (x : A) × (get_elem? xs i ≡ some x)
get_elem?-inside [] i h = elim h [ ]
get_elem?-inside (x ∷ xs) zero h = (x, refl)
get_elem?-inside (x ∷ xs) (suc i) h = get_elem?-inside xs i (omega arith)

List-cases : {A : Type 0} (xs : List A) → (xs ≡ []) ⊎ ((x : A) × (ys : List A) × (xs ≡ x ∷ ys))
List-cases [] = inl refl
List-cases (x ∷ ys) = inr (x, ys, refl)

module _ {V Op : Type 0} where
  -- the memory after a function with this body was called and has returned
  abbrev returned : VmMemory V Op → VmMemory V Op
  returned m = (pop_call_frame m).1

  unfoldable pub run : Body V → VmMemory V Op → VmMemory V Op
  run done m = m
  run (then_store name value b) m = run b (store name value m)
  run (then_return value b) m = run b (set_return_value value m).1
  run (then_call f params callee b) m = run b (returned (run callee (push_call_frame f params m).1))

  unfoldable pub call : Text → Dict V → Body V → VmMemory V Op → VmMemory V Op
  unfolding run
  call f params callee m = returned (run callee (push_call_frame f params m).1)

  -- the memory inside a call: `frame` on top of the frames of `m`
  abbrev inside : VmMemory V Op → CallFrame V → VmMemory V Op
  inside m frame = record m {
    call_frames = m.call_frames ++ frame ∷ [];
    call_stack = length m.call_frames ∷ m.call_stack;
  }

  returned-inside : (m : VmMemory V Op) (frame : CallFrame V) → returned (inside m frame) ≡ m
  unfolding pop_call_frame
  returned-inside m frame = rw (drop_last-append m.call_frames frame) refl

  run-inside :
      (b : Body V) (m : VmMemory V Op) (frame : CallFrame V)
      → (frame' : CallFrame V) × (run b (inside m frame) ≡ inside m frame')
  unfolding run store set_return_value push_call_frame
  run-inside done m frame = (frame, refl)
  run-inside (then_store name value b) m frame =
      rw (modify_at-last (set_local name value) m.call_frames frame)
        (run-inside b m (set_local name value frame))
  run-inside (then_return value b) m frame =
      let in_call : ltb 0 (length (m.call_frames ++ frame ∷ [])) ≡ true =
        ground (arith, length-append m.call_frames (frame ∷ [])) in
      rw (in_call, modify_last-append (with_return value) m.call_frames frame)
        (run-inside b m (with_return value frame))
  run-inside (then_call f params callee b) m frame =
      let (g, e) = run-inside callee (inside m frame) (frame_of f params) in
      rw (e, returned-inside (inside m frame) g) (run-inside b m frame)

  -- A call whose body runs to its end, and does nothing to memory but store, set return values and
  -- call other such functions, leaves memory, frames and call stack as they were: nothing that it
  -- stores is seen outside.
  pub call-restores :
      (f : Text) (params : Dict V) (callee : Body V) (m : VmMemory V Op)
      → call f params callee m ≡ m
  unfolding call push_call_frame
  call-restores f params callee m =
      let (g, e) = run-inside callee m (frame_of f params) in rw (e, returned-inside m g) refl

  -- After a value is stored under a name, that name loads it, and every other name loads what it
  -- loaded before, inside a call as outside.
  pub load-store :
      (name other : Text) (value : V) (m : VmMemory V Op)
      → InBounds m.call_stack m.call_frames
      → load other (store name value m) ≡ (if name == other then ok value else load other m)
  unfolding load store
  load-store name other value m h = elim (List-cases m.call_stack) [
    | inl e ↦ rw (e, lookup-insert) (ground arith)
    | inr (i, is, e) ↦
        let (f, found) = get_elem?-inside m.call_frames i (rw e at h) in
        rw
          (
            e,
            modify_at-get (set_local name value) m.call_frames i (rw e at h),
            found,
            lookup-insert,
          )
          (ground arith)
  ]
