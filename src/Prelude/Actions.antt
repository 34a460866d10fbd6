-- ===== src/Prelude/Actions.antt =====
-- Fallible calls that mutate: `&mut self` is the state passed in and given back. An error keeps the
-- state that was reached before it, as `?` does in Rust.
use mathlib.Core.Path.{◌≡◌, refl}
use mathlib.Core.Logic.{◌⊎◌, inl, inr}
use mathlib.Core.Bool.{Bool}
use mathlib.Core.Option.{Option, none, some}
use icn_covm.Prelude.Tests.{if◌then◌else◌}

pub data Result (E A : Type 0) : Type 0 where
  ok : A → Result E A
  err : E → Result E A

abbrev pub is_ok : {E A : Type 0} → Result E A → Bool
is_ok (ok _) = Bool.true
is_ok (err _) = Bool.false

-- `?` on a value that was computed without changing the state
abbrev pub then_do : {E A B : Type 0} → Result E A → (A → Result E B) → Result E B
then_do (ok a) f = f a
then_do (err e) f = err e

abbrev pub Action : Type 0 → Type 0 → Type 0 → Type 0
Action S E A = S → Result E A × S

module _ {S E A : Type 0} where
  abbrev pub pure : A → Action S E A
  pure a s = (ok a, s)

  abbrev pub fail : E → Action S E A
  fail e s = (err e, s)

  abbrev pub lift : Result E A → Action S E A
  lift r s = (r, s)

  abbrev pub gets : (S → A) → Action S E A
  gets f s = (ok (f s), s)

  -- a fallible read of the state
  abbrev pub query : (S → Result E A) → Action S E A
  query f s = (f s, s)

-- the result of a call, and what follows it
abbrev pub resume : {S E A B : Type 0} → Result E A → S → (A → Action S E B) → Result E B × S
resume (ok a) s f = f a s
resume (err e) s f = (err e, s)

infixl 5 ◌>>=◌ ◌>>◌
abbrev pub ◌>>=◌ : {S E A B : Type 0} → Action S E A → (A → Action S E B) → Action S E B
◌>>=◌ m f s = resume (m s).0 (m s).1 f

abbrev pub ◌>>◌ : {S E B : Type 0} → Action S E (Unit {0}) → Action S E B → Action S E B
m >> k = m >>= λ _. k

abbrev pub modify : {S E : Type 0} → (S → S) → Action S E (Unit {0})
modify f s = (ok tt, f s)

-- `if c { return Err(e) }`
abbrev pub fail_if : {S E : Type 0} → Bool → E → Action S E (Unit {0})
fail_if c e s = (if c then err e else ok tt, s)

-- `o.ok_or(e)?`
abbrev pub ok_or : {E A : Type 0} → Option A → E → Result E A
ok_or none e = err e
ok_or (some a) e = ok a

-- What holds of the state where a call stops, and after every way to go on, holds at the end.
pub resume_post :
    {S E A B : Type 0} (P : S → Type 0) (r : Result E A) (s : S) (f : A → Action S E B)
    → P s
    → ((a : A) → r ≡ ok a → P (f a s).1)
    → P (resume r s f).1
resume_post P (ok a) s f h k = k a refl
resume_post P (err e) s f h k = h

pub Result-cases :
    {E A : Type 0} (r : Result E A) → ((e : E) × (r ≡ err e)) ⊎ ((a : A) × (r ≡ ok a))
Result-cases (ok a) = inr (a, refl)
Result-cases (err e) = inl (e, refl)
