-- ===== src/Economic/Balances.antt =====
-- What a call of `mint` or `burn` does to every balance of the resource.
use icn_covm.Prelude.{
  ℕ, ◌+◌, ◌-◌, ◌%◌, ◌^◌, ◌≤◌, ◌<◌, ◌≡◌, refl, Option, Text, ◌==◌, if◌then◌else◌, arith, inl, inr,
  List, Option-cases,
}
use icn_covm.Prelude.Decimal.{print, parse, parse-print, parse_bound}
use icn_covm.Prelude.Actions.{ok}
use icn_covm.Storage.Types.{StorageResult, StorageEvent, Timestamp}
use icn_covm.Storage.InMemory.{Times}
use icn_covm.Economic.{balance_key, number_or_zero, read_number, mint, burn}
use icn_covm.Economic.Interface.{Backend}
use icn_covm.Economic.Keys.{balance_key-==}

number_or_zero-print : (n : ℕ) → n < 2 ^ 64 → number_or_zero (print n) ≡ n
unfolding number_or_zero
number_or_zero-print n h = rw (parse-print n h, number_or_zero) refl

module _ (B : Backend) where
  open B use {State, contains, get, set, contains_set, get_set}

  pub read_number-set :
      (t : Times) (k : Text) (n : ℕ) (s : State) (j : Text)
      → n < 2 ^ 64
      → (set t k (print n) s).0 ≡ ok tt
      → read_number B j (set t k (print n) s).1 ≡ (if k == j then ok n else read_number B j s)
  unfolding read_number
  read_number-set t k n s j b h =
      rw (contains_set t k (print n) s j h, get_set t k (print n) s j h)
        (ground (arith, number_or_zero-print n b))

  -- the balance of an account, as the operations read it
  abbrev pub balance : Text → Text → State → StorageResult ℕ
  balance resource account = read_number B (balance_key resource account)

  pub balance-set :
      (t : Times) (resource a : Text) (n : ℕ) (s : State) (b : Text)
      → n < 2 ^ 64
      → (set t (balance_key resource a) (print n) s).0 ≡ ok tt
      → balance resource b (set t (balance_key resource a) (print n) s).1
        ≡ (if a == b then ok n else balance resource b s)
  balance-set t resource a n s b l h =
      rw (← balance_key-== resource a b)
        (read_number-set t (balance_key resource a) n s (balance_key resource b) l h)

  mint_inversion :
      (t : Times) (now : Timestamp) (resource account : Text) (amount : ℕ) (reason : Text)
      (s : State) (current : ℕ) {e : Option StorageEvent}
      → balance resource account s ≡ ok current
      → (mint B t now resource account amount reason s).0 ≡ ok e
      → let n = (current + amount) % 2 ^ 64 in
        ((set t (balance_key resource account) (print n) s).0 ≡ ok tt)
        × ((mint B t now resource account amount reason s).1
            ≡ (set t (balance_key resource account) (print n) s).1)
  unfolding mint
  mint_inversion t now resource account amount reason s current b h = ground arith

  number_bound : (bytes : List ℕ) → number_or_zero bytes < 2 ^ 64
  unfolding number_or_zero
  number_bound bytes = elim (Option-cases (parse bytes)) [
    | inl e ↦ rw (e, number_or_zero) (omega arith)
    | inr (n, e) ↦ rw (e, number_or_zero) (parse_bound bytes e)
  ]

  -- A balance that is read fits in a u64.
  pub balance_bound :
      (resource a : Text) (s : State) {n : ℕ} → balance resource a s ≡ ok n → n < 2 ^ 64
  unfolding read_number
  balance_bound resource a s h = grind (arith, number_bound)

  -- A mint that succeeds, and does not overflow a u64, adds the amount to the balance of its account
  -- and leaves every other balance of the resource as it was.
  pub mint_balances :
      (t : Times) (now : Timestamp) (resource account : Text) (amount : ℕ) (reason : Text)
      (s : State) (current : ℕ) {e : Option StorageEvent} (b : Text)
      → balance resource account s ≡ ok current
      → current + amount < 2 ^ 64
      → (mint B t now resource account amount reason s).0 ≡ ok e
      → balance resource b (mint B t now resource account amount reason s).1
        ≡ (if account == b then ok (current + amount) else balance resource b s)
  mint_balances t now resource account amount reason s current b h l r =
      let (written, state) = mint_inversion t now resource account amount reason s current h r in
      let small : (current + amount) % 2 ^ 64 ≡ current + amount = omega arith in
      rw
        (
          state,
          balance-set t resource account ((current + amount) % 2 ^ 64) s b (omega arith) written,
          small,
        )
        refl

  burn_inversion :
      (t : Times) (now : Timestamp) (resource account : Text) (amount : ℕ) (reason : Text)
      (s : State) (current : ℕ) {e : Option StorageEvent}
      → balance resource account s ≡ ok current
      → (burn B t now resource account amount reason s).0 ≡ ok e
      → (amount ≤ current)
        × ((set t (balance_key resource account) (print (current - amount)) s).0 ≡ ok tt)
        × ((burn B t now resource account amount reason s).1
            ≡ (set t (balance_key resource account) (print (current - amount)) s).1)
  unfolding burn
  burn_inversion t now resource account amount reason s current b h = ground arith

  -- A burn that succeeds takes no more than the account holds: it lowers that balance by the amount
  -- and leaves every other balance of the resource as it was.
  pub burn_balances :
      (t : Times) (now : Timestamp) (resource account : Text) (amount : ℕ) (reason : Text)
      (s : State) (current : ℕ) {e : Option StorageEvent} (b : Text)
      → balance resource account s ≡ ok current
      → (burn B t now resource account amount reason s).0 ≡ ok e
      → (amount ≤ current)
        × (balance resource b (burn B t now resource account amount reason s).1
            ≡ (if account == b then ok (current - amount) else balance resource b s))
  burn_balances t now resource account amount reason s current b h r =
      let (covered, written, state) =
        burn_inversion t now resource account amount reason s current h r in
      let l = balance_bound resource account s h in
      (
        covered,
        rw state (balance-set t resource account (current - amount) s b (omega arith) written),
      )
