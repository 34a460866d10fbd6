-- ===== src/Economic/Keys.antt =====
-- The storage keys of resources and balances.
use icn_covm.Prelude.{
  ◌≡◌, refl, false, ◌++◌, Text, text, ◌==◌, eq_of_==, ==-refl, ==_iff, append_cancel, arith,
  Bool-cases, inl, inr,
}
use mathlib.Core.List.{append_assoc}
use icn_covm.Economic.{balance_key}

balance_key-injective :
    (resource a b : Text) → balance_key resource a ≡ balance_key resource b → a ≡ b
unfolding balance_key
balance_key-injective resource a b h =
    append_cancel (text "/accounts/") a b
      (append_cancel resource _ _ (append_cancel (text "resources/") _ _ h))

-- Two accounts of one resource have the same key exactly if they are the same account.
pub balance_key-== :
    (resource a b : Text) → (balance_key resource a == balance_key resource b) ≡ (a == b)
balance_key-== resource a b = elim (Bool-cases (a == b)) [
  | inl e ↦ rw (e, eq_of_== a b e, ==-refl) refl
  | inr e ↦ elim (Bool-cases (balance_key resource a == balance_key resource b)) [
    | inl f ↦ absurd (distinct e (balance_key-injective resource a b (eq_of_== _ _ f)))
    | inr f ↦ rw (e, f) refl
  ]
]
  where
    distinct : (a == b) ≡ false → a ≡ b → ⊥
    distinct e p = ground (arith, ==_iff a b)

-- A resource whose name holds "/accounts/" shares a balance with another resource: for all x, y and
-- z, account z of resource x/accounts/y has the key of account y/accounts/z of resource x.
pub balance_key_collides :
    (x y z : Text)
    → balance_key (x ++ (text "/accounts/" ++ y)) z ≡ balance_key x (y ++ (text "/accounts/" ++ z))
unfolding balance_key
balance_key_collides x y z = simp append_assoc
