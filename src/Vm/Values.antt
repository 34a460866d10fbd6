-- ===== src/Vm/Values.antt =====
-- typed.rs: the values of the VM. Floats are a parameter: `Floats` lists what the source uses of f64.
pub mod Logic
pub mod Comparisons
use icn_covm.Prelude.{
  ℕ, zero, suc, Bool, true, false, not, ◌&&◌, ◌||◌, Option, none, some, List, [], ◌∷◌, ◌++◌, Text,
  text, ◌==◌, if◌then◌else◌, ltb,
}
use icn_covm.Prelude.Actions.{Result, ok, err, then_do}

-- `is_zero a` is `a == 0.0`, `is_equal` is `==`, `is_close a b` is `(a - b).abs() < f64::EPSILON`,
-- `to_usize` and `of_nat` are the casts, to an integer of 64 bits and from one.
pub record Floats : Type 1 where
  pub F : Type 0
  pub zero_value : F
  pub one : F
  pub add : F → F → F
  pub sub : F → F → F
  pub mul : F → F → F
  pub div : F → F → F
  pub modulo : F → F → F
  pub is_zero : F → Bool
  pub is_equal : F → F → Bool
  pub is_close : F → F → Bool
  pub less : F → F → Bool
  pub parse : Text → Option F
  pub print : F → Text
  pub to_usize : F → ℕ
  pub of_nat : ℕ → F
  pub negate : F → F
  pub round : F → F

pub data ValueError : Type 0 where
  type_mismatch : (expected found : Text) → ValueError
  invalid_operation : (op types : Text) → ValueError
  coercion_error : (from to : Text) → ValueError
  value_out_of_bounds : ValueError

pub data TypedValue (F : Type 0) : Type 0 where
  number : F → TypedValue F
  boolean : Bool → TypedValue F
  string : Text → TypedValue F
  null : TypedValue F

abbrev pub is_empty : Text → Bool
is_empty [] = true
is_empty (c ∷ t) = false

abbrev pub print_bool : Bool → Text
print_bool true = text "true"
print_bool false = text "false"

-- `str::repeat`
abbrev pub repeat : ℕ → Text → Text
repeat zero t = []
repeat (suc n) t = t ++ repeat n t

-- `a < b` of two strings: byte by byte
abbrev pub text_less : Text → Text → Bool
text_less [] [] = false
text_less [] (b ∷ t) = true
text_less (a ∷ s) [] = false
text_less (a ∷ s) (b ∷ t) = ltb a b || (not (ltb b a) && text_less s t)

pub type_name : {F : Type 0} → TypedValue F → Text
type_name (number _) = text "Number"
type_name (boolean _) = text "Boolean"
type_name (string _) = text "String"
type_name null = text "Null"

module _ (N : Floats) where
  open N use {F}

  unfoldable pub is_falsey : TypedValue F → Bool
  is_falsey (number n) = N.is_zero n
  is_falsey (boolean b) = not b
  is_falsey (string s) = is_empty s
  is_falsey null = true

  abbrev pub parsed : Option F → Result ValueError F
  parsed none = err (coercion_error (text "String") (text "Number"))
  parsed (some n) = ok n

  unfoldable pub as_number : TypedValue F → Result ValueError F
  as_number (number n) = ok n
  as_number (boolean b) = ok (if b then N.one else N.zero_value)
  as_number (string s) = parsed (N.parse s)
  as_number null = ok N.zero_value

  unfoldable pub as_boolean : TypedValue F → Result ValueError Bool
  as_boolean (number n) = ok (not (N.is_zero n))
  as_boolean (boolean b) = ok b
  as_boolean (string s) = ok (not (is_empty s))
  as_boolean null = ok false

  unfoldable pub as_string : TypedValue F → Result ValueError Text
  as_string (number n) = ok (N.print n)
  as_string (boolean b) = ok (print_bool b)
  as_string (string s) = ok s
  as_string null = ok (text "null")

  -- `Display`
  unfoldable pub to_text : TypedValue F → Text
  to_text (number n) = N.print n
  to_text (boolean b) = print_bool b
  to_text (string s) = text "\"" ++ (s ++ text "\"")
  to_text null = text "null"

  -- the derived `==`
  unfoldable pub is_same : TypedValue F → TypedValue F → Bool
  is_same (number a) (number b) = N.is_equal a b
  is_same (boolean a) (boolean b) = if a then b else not b
  is_same (string a) (string b) = a == b
  is_same null null = true
  is_same a b = false

  -- an operation on two numbers, with coercion
  abbrev pub numeric :
      {A : Type 0}
      → (F → F → Result ValueError A)
      → TypedValue F
      → TypedValue F
      → Result ValueError A
  numeric f a b = then_do (as_number a) (λ x. then_do (as_number b) (λ y. f x y))

  unfoldable pub add : TypedValue F → TypedValue F → Result ValueError (TypedValue F)
  unfolding as_string as_number
  add (string a) b = then_do (as_string b) (λ t. ok (string (a ++ t)))
  add (number a) (string b) = then_do (as_string (number a)) (λ t. ok (string (t ++ b)))
  add (boolean a) (string b) = then_do (as_string (boolean a)) (λ t. ok (string (t ++ b)))
  add null (string b) = then_do (as_string null) (λ t. ok (string (t ++ b)))
  add (number a) (number b) = ok (number (N.add a b))
  add (number a) (boolean b) = numeric (λ x y. ok (number (N.add x y))) (number a) (boolean b)
  add (number a) null = numeric (λ x y. ok (number (N.add x y))) (number a) null
  add (boolean a) (number b) = numeric (λ x y. ok (number (N.add x y))) (boolean a) (number b)
  add (boolean a) (boolean b) = numeric (λ x y. ok (number (N.add x y))) (boolean a) (boolean b)
  add (boolean a) null = numeric (λ x y. ok (number (N.add x y))) (boolean a) null
  add null (number b) = numeric (λ x y. ok (number (N.add x y))) null (number b)
  add null (boolean b) = numeric (λ x y. ok (number (N.add x y))) null (boolean b)
  add null null = numeric (λ x y. ok (number (N.add x y))) null null

  unfoldable pub sub : TypedValue F → TypedValue F → Result ValueError (TypedValue F)
  sub a b = numeric (λ x y. ok (number (N.sub x y))) a b

  -- a division, refused where the divisor is zero
  abbrev pub divided :
      Text → (F → F → F) → TypedValue F → TypedValue F → Result ValueError (TypedValue F)
  divided name f a b =
      numeric
        (λ x y.
          if N.is_zero y
          then err (invalid_operation name (text "by zero"))
          else ok (number (f x y)))
        a b

  unfoldable pub div : TypedValue F → TypedValue F → Result ValueError (TypedValue F)
  div a b = divided (text "division") N.div a b

  unfoldable pub modulo : TypedValue F → TypedValue F → Result ValueError (TypedValue F)
  modulo a b = divided (text "modulo") N.modulo a b

  unfoldable pub logical_not : TypedValue F → Result ValueError (TypedValue F)
  logical_not a = then_do (as_boolean a) (λ x. ok (boolean (not x)))

  unfoldable pub logical_and : TypedValue F → TypedValue F → Result ValueError (TypedValue F)
  logical_and a b =
      then_do (as_boolean a) (λ x. then_do (as_boolean b) (λ y. ok (boolean (x && y))))

  unfoldable pub logical_or : TypedValue F → TypedValue F → Result ValueError (TypedValue F)
  logical_or a b = then_do (as_boolean a) (λ x. then_do (as_boolean b) (λ y. ok (boolean (x || y))))

  -- string repetition, at most a thousand times
  abbrev pub repeated : Text → F → Result ValueError (TypedValue F)
  repeated s n =
      if ltb 1000 (N.to_usize n)
      then err value_out_of_bounds
      else ok (string (repeat (N.to_usize n) s))

  unfoldable pub mul : TypedValue F → TypedValue F → Result ValueError (TypedValue F)
  mul (string s) (number n) = repeated s n
  mul (number n) (string s) = repeated s n
  mul a b = numeric (λ x y. ok (number (N.mul x y))) a b

  -- the comparison as texts, for values of different types
  abbrev pub same_text : TypedValue F → TypedValue F → Result ValueError (TypedValue F)
  same_text a b = then_do (as_string a) (λ s. then_do (as_string b) (λ t. ok (boolean (s == t))))

  unfoldable pub equals : TypedValue F → TypedValue F → Result ValueError (TypedValue F)
  equals (number a) (number b) = ok (boolean (N.is_close a b))
  equals (boolean a) (boolean b) = ok (boolean (if a then b else not b))
  equals (string a) (string b) = ok (boolean (a == b))
  equals null null = ok (boolean true)
  equals null b = ok (boolean false)
  equals a null = ok (boolean false)
  equals a b = same_text a b

  unfoldable pub greater_than : TypedValue F → TypedValue F → Result ValueError (TypedValue F)
  greater_than (string a) (string b) = ok (boolean (text_less b a))
  greater_than a b = numeric (λ x y. ok (boolean (N.less y x))) a b

  unfoldable pub less_than : TypedValue F → TypedValue F → Result ValueError (TypedValue F)
  less_than (string a) (string b) = ok (boolean (text_less a b))
  less_than a b = numeric (λ x y. ok (boolean (N.less x y))) a b
