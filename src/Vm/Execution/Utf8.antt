-- ===== src/Vm/Execution/Utf8.antt =====
-- What vm/execution.rs uses of the standard library on bytes: `String::from_utf8` and `contains`.
use icn_covm.Prelude.{
  ℕ, Bool, true, false, not, ◌&&◌, ◌||◌, Option, none, some, List, [], ◌∷◌, Text, starts_with,
  if◌then◌else◌, ltb,
}

abbrev pub within : ℕ × ℕ → ℕ → Bool
within (low, high) b = not (ltb b low) && not (ltb high b)

abbrev tail_byte : ℕ × ℕ
tail_byte = (128, 191)

-- the ranges of the bytes that follow a first byte, or none where no character begins with it
abbrev pub following : ℕ → Option (List (ℕ × ℕ))
following b =
    if within (0, 127) b
    then some []
    else if within (194, 223) b
    then some (tail_byte ∷ [])
    else if within (224, 224) b
    then some ((160, 191) ∷ tail_byte ∷ [])
    else if within (237, 237) b
    then some ((128, 159) ∷ tail_byte ∷ [])
    else if within (225, 239) b
    then some (tail_byte ∷ tail_byte ∷ [])
    else if within (240, 240) b
    then some ((144, 191) ∷ tail_byte ∷ tail_byte ∷ [])
    else if within (241, 243) b
    then some (tail_byte ∷ tail_byte ∷ tail_byte ∷ [])
    else if within (244, 244) b
    then some ((128, 143) ∷ tail_byte ∷ tail_byte ∷ [])
    else none

abbrev pub utf8_from : List (ℕ × ℕ) → List ℕ → Bool
utf8_from [] [] = true
utf8_from (r ∷ rs) [] = false
utf8_from (r ∷ rs) (b ∷ bs) = within r b && utf8_from rs bs
utf8_from [] (b ∷ bs) = elim (following b) [ none ↦ false | some rs ↦ utf8_from rs bs ]

unfoldable pub is_utf8 : List ℕ → Bool
is_utf8 bs = utf8_from [] bs

-- `str::contains`
unfoldable pub contains_text : Text → Text → Bool
contains_text [] pattern = starts_with [] pattern
contains_text (c ∷ s) pattern = starts_with (c ∷ s) pattern || contains_text s pattern
