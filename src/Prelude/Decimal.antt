-- ===== src/Prelude/Decimal.antt =====
-- `u64::to_string` and `str::parse::<u64>`, on bytes.
use Prim.Native.Nat.{ℕ, zero, suc, ◌+◌, ◌-◌, ◌*◌, ◌/◌, ◌%◌, ◌^◌, ◌≤◌, ◌<◌}
use mathlib.Core.Path.{◌≡◌, refl, ◌∙◌}
use mathlib.Core.Logic.{inl, inr}
use mathlib.Core.Bool.{◌&&◌}
use mathlib.Core.Option.{Option, none, some}
use mathlib.Core.List.{[], ◌∷◌, ◌++◌}
use native.Mathlib.Omega.{arith}
use icn_covm.Prelude.Tests.{if◌then◌else◌, ltb, leb, nat_eq, Bool-cases}
use icn_covm.Prelude.Bytes.{Text}

-- The fuel bounds the number of digits; `print` gives more than enough.
print_with : ℕ → ℕ → Text
print_with zero n = []
print_with (suc f) n =
    let front = print_with f (n / 10) in
    if ltb n 10 then (b'0' + n) ∷ [] else front ++ (b'0' + n % 10) ∷ []

unfoldable pub print : ℕ → Text
unfolding print_with
print n = print_with (suc n) n

-- The loop of `from_str_radix`: a byte that is no digit, or a value above `u64::MAX`, is an error.
parse_from : ℕ → Text → Option ℕ
parse_from acc [] = some acc
parse_from acc (c ∷ cs) =
    let value = acc * 10 + (c - b'0') in
    let rest = parse_from value cs in
    if leb b'0' c && leb c b'9' && leb value (2 ^ 64 - 1) then rest else none

unfoldable pub parse : Text → Option ℕ
unfolding parse_from
parse [] = none
parse (c ∷ []) = parse_from 0 (c ∷ [])
parse (c ∷ (d ∷ cs)) = if nat_eq c b'+' then parse_from 0 (d ∷ cs) else parse_from 0 (c ∷ (d ∷ cs))

abbrev bind : Option ℕ → (ℕ → Option ℕ) → Option ℕ
bind none f = none
bind (some n) f = f n

parse_from-append :
    (acc : ℕ) (xs ys : Text)
    → parse_from acc (xs ++ ys) ≡ bind (parse_from acc xs) (λ n. parse_from n ys)
unfolding parse_from
parse_from-append acc [] ys = refl
parse_from-append acc (c ∷ xs) ys = ground (arith, parse_from-append (acc * 10 + (c - b'0')) xs ys)

parse_from-print_with : (f n : ℕ) → n < f → n < 2 ^ 64 → parse_from 0 (print_with f n) ≡ some n
unfolding print_with parse_from
parse_from-print_with zero n h b = elim h [ ]
parse_from-print_with (suc f) n h b = ground (
  arith,
  parse_from-append 0 (print_with f (n / 10)) ((b'0' + n % 10) ∷ []),
  parse_from-print_with f (n / 10),
)

abbrev StartsWithDigit : Text → Type 0
StartsWithDigit [] = ⊥
StartsWithDigit (c ∷ cs) = b'0' ≤ c

StartsWithDigit-append : (xs ys : Text) → StartsWithDigit xs → StartsWithDigit (xs ++ ys)
StartsWithDigit-append [] ys h = absurd h
StartsWithDigit-append (x ∷ xs) ys h = h

print_with-StartsWithDigit : (f n : ℕ) → n < f → StartsWithDigit (print_with f n)
unfolding print_with
print_with-StartsWithDigit zero n h = elim h [ ]
print_with-StartsWithDigit (suc f) n h = elim (Bool-cases (ltb n 10)) [
  | inl small ↦ rw small (omega arith)
  | inr large ↦ rw large (
      StartsWithDigit-append (print_with f (n / 10)) _
        (print_with-StartsWithDigit f (n / 10) (ground arith)))
]

parse-eq-parse_from : (xs : Text) → StartsWithDigit xs → parse xs ≡ parse_from 0 xs
unfolding parse
parse-eq-parse_from [] h = absurd h
parse-eq-parse_from (c ∷ []) h = refl
parse-eq-parse_from (c ∷ (d ∷ cs)) h = ground arith

pub parse-print : (n : ℕ) → n < 2 ^ 64 → parse (print n) ≡ some n
unfolding print
parse-print n h =
    parse-eq-parse_from (print_with (suc n) n) (print_with-StartsWithDigit (suc n) n (omega arith))
    ∙ parse_from-print_with (suc n) n (omega arith) h

parse_from_bound :
    (acc : ℕ) (xs : Text) {n : ℕ} → acc < 2 ^ 64 → parse_from acc xs ≡ some n → n < 2 ^ 64
unfolding parse_from
parse_from_bound acc [] b h = ground arith
parse_from_bound acc (c ∷ xs) {n} b h =
    ground (arith, parse_from_bound (acc * 10 + (c - b'0')) xs {n = n})

pub parse_bound : (xs : Text) {n : ℕ} → parse xs ≡ some n → n < 2 ^ 64
unfolding parse
parse_bound [] h = cc
parse_bound (c ∷ []) h = parse_from_bound 0 (c ∷ []) (omega arith) h
parse_bound (c ∷ (d ∷ xs)) h = elim (Bool-cases (nat_eq c b'+')) [
  | inl plus ↦ parse_from_bound 0 (d ∷ xs) (omega arith) (rw (plus) at h)
  | inr plus ↦ parse_from_bound 0 (c ∷ (d ∷ xs)) (omega arith) (rw (plus) at h)
]
