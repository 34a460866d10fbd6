-- ===== src/Economic/Moves.antt =====
-- What `transfer` does to the balances of the resource, and what is refused.
use icn_covm.Prelude.{
  ℕ, ◌+◌, ◌-◌, ◌%◌, ◌^◌, ◌≤◌, ◌<◌, ◌≡◌, ap, ◌⊎◌, inl, inr, Bool-cases, ltb, refl, true, false,
  Option, Text, ◌==◌, ==_iff, ==-refl, if◌then◌else◌, arith, ◌∙◌,
}
use icn_covm.Prelude.Decimal.{print}
use icn_covm.Prelude.Actions.{Result, ok, err, Result-cases}
use icn_covm.Storage.Types.{StorageError, StorageEvent, Timestamp, resource_not_found}
use icn_covm.Storage.InMemory.{Times}
use icn_covm.Economic.{balance_key, resource_key, mint, burn, transfer, get_balance, insufficient}
use icn_covm.Economic.Interface.{Backend}
use icn_covm.Economic.Balances.{balance, balance-set, balance_bound}

module _ (B : Backend) where
  open B use {State, contains, set}

  -- what every call below names: clocks, resource, the two accounts, amount, reason and state
  module _ (t t' : Times) (now : Timestamp) (resource from to : Text) (amount : ℕ) (reason : Text)
      (s : State) where
    abbrev moved : Result StorageError (Option StorageEvent) × State
    moved = transfer B t t' now resource from to amount reason s

    transfer_inversion :
        (f g : ℕ) {e : Option StorageEvent}
        → balance B resource from s ≡ ok f
        → balance B resource to s ≡ ok g
        → moved.0 ≡ ok e
        → let s₁ = (set t (balance_key resource from) (print (f - amount)) s).1 in
          let n = (g + amount) % 2 ^ 64 in
          (amount ≤ f)
          × ((set t (balance_key resource from) (print (f - amount)) s).0 ≡ ok tt)
          × ((set t' (balance_key resource to) (print n) s₁).0 ≡ ok tt)
          × (moved.1 ≡ (set t' (balance_key resource to) (print n) s₁).1)
    unfolding transfer
    transfer_inversion f g bf bg h = ground arith

    transfer_writes :
        (f g : ℕ) {e : Option StorageEvent} (b : Text)
        → balance B resource from s ≡ ok f
        → balance B resource to s ≡ ok g
        → g + amount < 2 ^ 64
        → moved.0 ≡ ok e
        → (amount ≤ f)
          × (balance B resource b moved.1 ≡ (
              if to == b
              then ok (g + amount)
              else if from == b
              then ok (f - amount)
              else balance B resource b s))
    transfer_writes f g b bf bg l h =
        let (covered, first, second, state) = transfer_inversion f g bf bg h in
        let fits = balance_bound B resource from s bf in
        let small : (g + amount) % 2 ^ 64 ≡ g + amount = omega arith in
        (
          covered,
          rw
              (
                state,
                balance-set B t' resource to ((g + amount) % 2 ^ 64) _ b (omega arith) second,
                small,
                balance-set B t resource from (f - amount) s b (omega arith) first,
              )
              refl,
        )

    -- A transfer between two different accounts that succeeds is covered by the source's balance. It
    -- takes the amount from the source and adds it to the target, if that does not overflow a u64,
    -- and leaves every other balance of the resource as it was.
    pub transfer_balances :
        (f g : ℕ) {e : Option StorageEvent} (b : Text)
        → (from == to) ≡ false
        → balance B resource from s ≡ ok f
        → balance B resource to s ≡ ok g
        → g + amount < 2 ^ 64
        → moved.0 ≡ ok e
        → (amount ≤ f)
          × (balance B resource b moved.1 ≡ (
              if from == b
              then ok (f - amount)
              else if to == b
              then ok (g + amount)
              else balance B resource b s))
    transfer_balances f g b ne bf bg l h =
        let (covered, written) = transfer_writes f g b bf bg l h in
        (covered, written ∙ ground (arith, ==_iff from b, ==_iff to b, ==_iff from to))

    -- the three ways in which a transfer fails that finds the balances `f` of the source and `g` of the
    -- target
    abbrev pub Failure : ℕ → ℕ → StorageError → Type 0
    Failure f g error =
        let lower = set t (balance_key resource from) (print (f - amount)) s in
        let higher = set t' (balance_key resource to) (print ((g + amount) % 2 ^ 64)) lower.1 in
        ((f < amount) × (error ≡ insufficient B from resource) × (moved.1 ≡ s))
        ⊎ ((amount ≤ f)
            × (((lower.0 ≡ err error) × (moved.1 ≡ lower.1))
                ⊎ (((b : Text)
                      → balance B resource b lower.1
                        ≡ (if from == b then ok (f - amount) else balance B resource b s))
                    × (higher.0 ≡ err error)
                    × (moved.1 ≡ higher.1))))

    -- A transfer of a resource that exists and whose two balances can be read fails in one of three
    -- ways. The source holds less than the amount: the error says so, and nothing changes. The source
    -- holds enough, but its lower balance cannot be written: the error is that of the storage, in the
    -- state that the write left. Or that balance is written and the one of the target is not: the
    -- error is again that of the storage, and when the second write began the source had lost the
    -- amount while every other balance was as before.
    pub transfer_failed :
        (f g : ℕ) (error : StorageError)
        → contains (resource_key resource) s ≡ ok true
        → balance B resource from s ≡ ok f
        → balance B resource to s ≡ ok g
        → moved.0 ≡ err error
        → Failure f g error
    unfolding transfer
    transfer_failed f g error known bf bg h =
        let key = balance_key resource from in
        let lower = set t key (print (f - amount)) s in
        let key' = balance_key resource to in
        let higher = set t' key' (print ((g + amount) % 2 ^ 64)) lower.1 in
        elim (Bool-cases (ltb f amount)) [
          | inl short ↦ inl (
            ground arith,
            (let q = (rw (known, bf, short) at h) in cc),
            rw (known, bf, short) refl,
          )
          | inr enough ↦ elim (Result-cases lower.0) [
            | inl (e, p) ↦
                let same : e ≡ error = (let q = (rw (known, bf, enough, bg, p) at h) in cc) in
                inr (ground arith, inl (p ∙ ap err same, rw (known, bf, enough, bg, p) refl))
            | inr (u, p) ↦
                let fits = balance_bound B resource from s bf in
                let debited =
                  λ (b : Text). balance-set B t resource from (f - amount) s b (omega arith) p in
                elim (Result-cases higher.0) [
                  | inr (v, q) ↦ absurd (let x = (rw (known, bf, enough, bg, p, q) at h) in cc)
                  | inl (e, q) ↦
                      let same : e ≡ error =
                        (let x = (rw (known, bf, enough, bg, p, q) at h) in cc) in
                      inr (
                        ground arith,
                        inr (debited, q ∙ ap err same, rw (known, bf, enough, bg, p, q) refl),
                      )
                ]
          ]
        ]

    -- Without the resource's metadata every operation on its balances is refused and changes nothing.
    pub unknown_resource :
        contains (resource_key resource) s ≡ ok false
        → (mint B t now resource to amount reason s ≡ (err (resource_not_found resource), s))
          × (burn B t now resource from amount reason s ≡ (err (resource_not_found resource), s))
          × (moved ≡ (err (resource_not_found resource), s))
          × (get_balance B now resource to s ≡ (err (resource_not_found resource), s))
    unfolding mint burn transfer get_balance
    unknown_resource h = (ground arith, ground arith, ground arith, ground arith)

  -- A transfer from an account to itself that succeeds creates units: the balance has grown by the
  -- amount.
  pub transfer_to_self :
      (t t' : Times) (now : Timestamp) (resource account : Text) (amount : ℕ) (reason : Text)
      (s : State) (f : ℕ) {e : Option StorageEvent}
      → balance B resource account s ≡ ok f
      → f + amount < 2 ^ 64
      → (transfer B t t' now resource account account amount reason s).0 ≡ ok e
      → balance B resource account (transfer B t t' now resource account account amount reason s).1
        ≡ ok (f + amount)
  transfer_to_self t t' now resource account amount reason s f bf l h =
      let (_, written) =
        transfer_writes t t' now resource account account amount reason s f f account bf bf l h in
      written ∙ rw (==-refl account) refl
