-- ===== src/Storage/Versioning/History.antt =====
-- VersionInfo: the history of a chain of versions.
use icn_covm.Prelude.{
  ℕ, zero, suc, ◌+◌, ◌≤◌, ◌<◌, ◌≡◌, refl, none, some, List, [], ◌∷◌, ◌++◌, Text, length, get_elem?,
  length-append, get_elem?-append_left, get_elem?-append_last, arith,
}
use icn_covm.Storage.Types.{Timestamp}
use icn_covm.Storage.Resource.{u64_max}
use icn_covm.Storage.Versioning.{
  VersionInfo, first, later, version, new, next_version, gather, reverse_onto, get_version_history,
  search_back, get_version,
}

-- The versions are numbered 1, 2, 3, … along the chain.
abbrev pub IsNumbered : VersionInfo → Type 0
IsNumbered (first n _ _) = n ≡ 1
IsNumbered (later n _ _ prev) = (n ≡ version prev + 1) × IsNumbered prev

reverse_onto-append :
    (xs ys zs : List VersionInfo) → reverse_onto xs (ys ++ zs) ≡ reverse_onto xs ys ++ zs
reverse_onto-append [] ys zs = refl
reverse_onto-append (x ∷ xs) ys zs = reverse_onto-append xs (x ∷ ys) zs

pub history-later :
    (n : ℕ) (by : Text) (at : Timestamp) (prev : VersionInfo)
    → get_version_history (later n by at prev) ≡ get_version_history prev ++ later n by at prev ∷ []
unfolding get_version_history
history-later n by at prev = reverse_onto-append (gather prev) [] (later n by at prev ∷ [])

-- A later version keeps the whole history and comes last in it.
pub history-next_version :
    (now : Timestamp) (by : Text) (v : VersionInfo)
    → get_version_history (next_version now by v)
      ≡ get_version_history v ++ next_version now by v ∷ []
unfolding next_version
history-next_version now by v = history-later _ by now v

pub new-IsNumbered : (now : Timestamp) (by : Text) → IsNumbered (new now by)
new-IsNumbered now by = refl

pub next_version-IsNumbered :
    (now : Timestamp) (by : Text) (v : VersionInfo)
    → version v < u64_max
    → IsNumbered v
    → IsNumbered (next_version now by v)
unfolding next_version
next_version-IsNumbered now by v h c = (omega arith, c)

history-first :
    (n : ℕ) (by : Text) (at : Timestamp) → get_version_history (first n by at) ≡ first n by at ∷ []
unfolding get_version_history
history-first n by at = refl

pub history-new : (now : Timestamp) (by : Text) → get_version_history (new now by) ≡ new now by ∷ []
history-new now by = history-first 1 by now

version-pos : (v : VersionInfo) → IsNumbered v → 1 ≤ version v
version-pos (first n by at) h = omega arith
version-pos (later n by at prev) (h, c) = omega arith

-- A chain numbered from 1 has as many entries as its newest number.
pub length-history : (v : VersionInfo) → IsNumbered v → length (get_version_history v) ≡ version v
length-history (first n by at) h = rw history-first (omega arith)
length-history (later n by at prev) (h, c) =
    rw (history-later, length-append) (omega (arith, length-history prev c))

elem-last :
    (v : VersionInfo) (n : ℕ)
    → IsNumbered v
    → version v ≡ suc n
    → get_elem? (get_version_history v) n ≡ some v
elem-last (first m by at) zero h e = rw history-first
elem-last (first m by at) (suc n) h e = absurd (omega arith)
elem-last (later m by at prev) n (h, c) e =
    rw (history-later, ← len) (get_elem?-append_last (get_version_history prev) _)
  where
    len : length (get_version_history prev) ≡ n
    len = omega (arith, length-history prev c)

elem-before :
    (n : ℕ) (by : Text) (at : Timestamp) (prev : VersionInfo) (i : ℕ)
    → IsNumbered prev
    → i < version prev
    → get_elem? (get_version_history (later n by at prev)) i
      ≡ get_elem? (get_version_history prev) i
elem-before n by at prev i c h =
    rw history-later
      (get_elem?-append_left (get_version_history prev) _ i (rw (length-history prev c) h))

search_back-elem :
    (v : VersionInfo) (n : ℕ)
    → IsNumbered v
    → suc n < version v
    → search_back (suc n) v ≡ get_elem? (get_version_history v) n
unfolding search_back
search_back-elem (first m by at) n c h = absurd (omega arith)
search_back-elem (later m by at prev) n (e, c) h =
    ground (arith, elem-before m by at prev n c, elem-last prev n c, search_back-elem prev n c)

elem-above : {A : Type 0} (xs : List A) (n : ℕ) → length xs ≤ n → get_elem? xs n ≡ none
elem-above [] n h = refl
elem-above (x ∷ xs) zero h = elim h [ ]
elem-above (x ∷ xs) (suc n) h = elem-above xs n (omega arith)

-- In a chain numbered from 1, version n + 1 is entry n of the history, and there is none exactly
-- where the history has no such entry.
pub get_version-history :
    (v : VersionInfo) (n : ℕ)
    → IsNumbered v
    → get_version (suc n) v ≡ get_elem? (get_version_history v) n
unfolding get_version
get_version-history v n c = ground (
  arith,
  elem-last v n c,
  search_back-elem v n c,
  elem-above (get_version_history v) n,
  length-history v c,
)
