-- ===== src/Vm/Values/Comparisons.antt =====
-- The values: comparisons.
use icn_covm.Prelude.{◌≡◌, refl, true, false, Text, ◌==◌, ==_iff, arith}
use icn_covm.Vm.Values.{
  Floats, TypedValue, number, boolean, string, null, as_number, as_string, equals, greater_than,
  less_than,
}

==-sym : (s t : Text) → (s == t) ≡ (t == s)
==-sym s t = ground (arith, ==_iff s t, ==_iff t s)

module _ (N : Floats) where
  open N use {F}

  -- Equality of values is symmetric, errors included, whatever their types, where closeness of
  -- floats is.
  pub equals-sym :
      (a b : TypedValue F)
      → ((x y : F) → N.is_close x y ≡ N.is_close y x)
      → equals N a b ≡ equals N b a
  unfolding equals as_string
  equals-sym (number x) (number y) h = rw (h x y) refl
  equals-sym (number x) (boolean y) h = rw ==-sym refl
  equals-sym (number x) (string y) h = rw ==-sym refl
  equals-sym (number x) null h = refl
  equals-sym (boolean x) (number y) h = rw ==-sym refl
  equals-sym (boolean true) (boolean true) h = refl
  equals-sym (boolean true) (boolean false) h = refl
  equals-sym (boolean false) (boolean true) h = refl
  equals-sym (boolean false) (boolean false) h = refl
  equals-sym (boolean x) (string y) h = rw ==-sym refl
  equals-sym (boolean x) null h = refl
  equals-sym (string x) (number y) h = rw ==-sym refl
  equals-sym (string x) (boolean y) h = rw ==-sym refl
  equals-sym (string x) (string y) h = rw ==-sym refl
  equals-sym (string x) null h = refl
  equals-sym null (number y) h = refl
  equals-sym null (boolean y) h = refl
  equals-sym null (string y) h = refl
  equals-sym null null h = refl

  -- A value is greater than another exactly if the other is less, and the two comparisons fail
  -- together.
  pub greater_than-less_than : (a b : TypedValue F) → greater_than N a b ≡ less_than N b a
  unfolding greater_than less_than as_number
  greater_than-less_than (number x) (number y) = refl
  greater_than-less_than (number x) (boolean y) = refl
  greater_than-less_than (number x) (string y) = ground arith
  greater_than-less_than (number x) null = refl
  greater_than-less_than (boolean x) (number y) = refl
  greater_than-less_than (boolean x) (boolean y) = refl
  greater_than-less_than (boolean x) (string y) = ground arith
  greater_than-less_than (boolean x) null = refl
  greater_than-less_than (string x) (number y) = ground arith
  greater_than-less_than (string x) (boolean y) = ground arith
  greater_than-less_than (string x) (string y) = refl
  greater_than-less_than (string x) null = ground arith
  greater_than-less_than null (number y) = refl
  greater_than-less_than null (boolean y) = refl
  greater_than-less_than null (string y) = ground arith
  greater_than-less_than null null = refl
