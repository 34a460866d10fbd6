-- ===== src/Vm/Values/Logic.antt =====
-- The values: what counts as true, and the logical operations on it.
use icn_covm.Prelude.{◌≡◌, refl, Bool, true, false, not, ◌&&◌, ◌||◌}
use icn_covm.Prelude.Actions.{Result, ok, then_do}
use icn_covm.Vm.Values.{
  Floats, TypedValue, number, boolean, string, null, ValueError, is_falsey, as_boolean, logical_not,
  logical_and, logical_or,
}

module _ (N : Floats) where
  open N use {F}

  de_morgan :
      (x y : Bool)
      → (◌≡◌ {A = Result ValueError (TypedValue F)}
          (ok (boolean (not (not x && not y))))
          (ok (boolean (not (not x) || not (not y)))))
        × (◌≡◌ {A = Result ValueError (TypedValue F)}
            (ok (boolean (not (not (not x)))))
            (ok (boolean (not x))))
  de_morgan true true = (refl, refl)
  de_morgan true false = (refl, refl)
  de_morgan false true = (refl, refl)
  de_morgan false false = (refl, refl)

  -- Every value converts to a Boolean, to the opposite of whether it counts as false.
  pub as_boolean-is_falsey : (v : TypedValue F) → as_boolean N v ≡ ok (not (is_falsey N v))
  unfolding as_boolean is_falsey
  as_boolean-is_falsey (number n) = refl
  as_boolean-is_falsey (boolean true) = refl
  as_boolean-is_falsey (boolean false) = refl
  as_boolean-is_falsey (string s) = refl
  as_boolean-is_falsey null = refl

  -- The logical operations succeed on all values, and satisfy De Morgan's law and double negation up
  -- to conversion to Booleans.
  pub logical_laws :
      (a b : TypedValue F)
      → (then_do (logical_and N a b) (logical_not N)
          ≡ then_do (logical_not N a) (λ x. then_do (logical_not N b) (logical_or N x)))
        × (then_do (logical_not N a) (logical_not N)
            ≡ then_do (as_boolean N a) (λ x. ok (boolean x)))
  unfolding logical_and logical_or logical_not as_boolean
  logical_laws a b =
      rw (as_boolean-is_falsey a, as_boolean-is_falsey b)
        (de_morgan (is_falsey N a) (is_falsey N b))
