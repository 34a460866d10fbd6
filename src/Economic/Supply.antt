-- ===== src/Economic/Supply.antt =====
-- The supply of a resource: the sum of the balances of a list of accounts.
use icn_covm.Prelude.{
  ℕ, ◌+◌, ◌-◌, ◌<◌, ◌^◌, ◌≡◌, refl, true, false, Option, List, [], ◌∷◌, Text, ◌==◌, ==_iff,
  eq_of_==, member, if◌then◌else◌, arith, Bool-cases, inl, inr,
}
use icn_covm.Prelude.Actions.{ok, err}
use icn_covm.Storage.Types.{StorageResult, StorageEvent, Timestamp}
use icn_covm.Storage.InMemory.{Times}
use icn_covm.Economic.{transfer}
use icn_covm.Economic.Interface.{Backend}
use icn_covm.Economic.Balances.{balance}
use icn_covm.Economic.Moves.{transfer_balances}

abbrev pub Distinct : List Text → Type 0
Distinct [] = Unit
Distinct (x ∷ xs) = (member x xs ≡ false) × Distinct xs

abbrev pub units : StorageResult ℕ → ℕ
units (ok n) = n
units (err _) = 0

abbrev pub sum_over : (Text → ℕ) → List Text → ℕ
sum_over f [] = 0
sum_over f (x ∷ xs) = f x + sum_over f xs

-- The function that has `v` at `a` and is `f` elsewhere.
abbrev changed : Text → ℕ → (Text → ℕ) → Text → ℕ
changed a v f b = if a == b then v else f b

sum_over-changed_absent :
    (a : Text) (v : ℕ) (f : Text → ℕ) (xs : List Text)
    → member a xs ≡ false
    → sum_over (changed a v f) xs ≡ sum_over f xs
unfolding member
sum_over-changed_absent a v f [] h = refl
sum_over-changed_absent a v f (x ∷ xs) h =
    ground (arith, ==_iff a x, ==_iff x a, sum_over-changed_absent a v f xs)

sum_over-changed :
    (a : Text) (v : ℕ) (f : Text → ℕ) (xs : List Text)
    → Distinct xs
    → member a xs ≡ true
    → sum_over (changed a v f) xs + f a ≡ sum_over f xs + v
unfolding member
sum_over-changed a v f [] d h = cc
sum_over-changed a v f (x ∷ xs) (new, d) h = elim (Bool-cases (a == x)) [
  | inl e ↦
      let p = eq_of_== a x e in
      let absent : member a xs ≡ false = rw p new in
      ground (arith, p, sum_over-changed_absent a v f xs absent)
  | inr e ↦ ground (arith, ==_iff a x, ==_iff x a, sum_over-changed a v f xs d)
]

sum_over-congr :
    (f g : Text → ℕ) (xs : List Text) → ((x : Text) → f x ≡ g x) → sum_over f xs ≡ sum_over g xs
sum_over-congr f g [] h = refl
sum_over-congr f g (x ∷ xs) h = omega (arith, h x, sum_over-congr f g xs h)

-- the units of a resource that the accounts of a list hold together
abbrev pub supply : (B : Backend) → Text → List Text → B.State → ℕ
supply B resource accounts s = sum_over (λ a. units (balance B resource a s)) accounts

-- A transfer between two different accounts of a list of distinct accounts, that succeeds and does
-- not overflow a u64, leaves the supply of the resource in that list as it was.
pub transfer_conserves_supply :
    (B : Backend) (t t' : Times) (now : Timestamp) (resource from to : Text) (amount : ℕ)
    (reason : Text) (s : B.State) (accounts : List Text) (f g : ℕ) {e : Option StorageEvent}
    → Distinct accounts
    → member from accounts ≡ true
    → member to accounts ≡ true
    → (from == to) ≡ false
    → balance B resource from s ≡ ok f
    → balance B resource to s ≡ ok g
    → g + amount < 2 ^ 64
    → (transfer B t t' now resource from to amount reason s).0 ≡ ok e
    → supply B resource accounts (transfer B t t' now resource from to amount reason s).1
      ≡ supply B resource accounts s
transfer_conserves_supply B t t' now resource from to amount reason s xs f g d mf mt ne bf bg l h =
    let F : Text → ℕ = λ a. units (balance B resource a s) in
    let after = (transfer B t t' now resource from to amount reason s).1 in
    let first : Text → ℕ = changed from (f - amount) F in
    let both : Text → ℕ = changed to (g + amount) first in
    let same : (a : Text) → units (balance B resource a after) ≡ both a = λ a.
      rw (transfer_balances B t t' now resource from to amount reason s f g a ne bf bg l h).1
        (ground (arith, ==_iff from a, ==_iff to a, ==_iff from to)) in
    let (covered, _) =
      transfer_balances B t t' now resource from to amount reason s f g from ne bf bg l h in
    let source : F from ≡ f = rw bf refl in
    let target : first to ≡ g = rw (ne, bg) refl in
    omega (
      arith,
      sum_over-congr _ both xs same,
      sum_over-changed to (g + amount) first xs d mt,
      sum_over-changed from (f - amount) F xs d mf,
    )
