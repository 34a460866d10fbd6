-- ===== src/Prelude/Maps.antt =====
-- A `HashMap<String, V>` as an association list. The source never relies on the order of a map's
-- entries; here the entry written last comes first.
use mathlib.Core.Path.{◌≡◌, refl}
use mathlib.Core.Bool.{Bool, true, false, ◌&&◌}
use mathlib.Core.Option.{Option, none, some}
use mathlib.Core.List.{List, [], ◌∷◌}
use native.Mathlib.Omega.{arith}
use icn_covm.Prelude.Tests.{if◌then◌else◌}
use icn_covm.Prelude.Bytes.{Text, ◌==◌, ==_iff, ==-refl}

abbrev pub Dict {ℓ} : Type ℓ → Type ℓ
Dict V = List (Text × V)

abbrev pub is_some {ℓ} : {A : Type ℓ} → Option A → Bool
is_some none = false
is_some (some _) = true

module _ {ℓ} {V : Type ℓ} where
  -- `get`
  unfoldable pub lookup : Text → Dict V → Option V
  lookup key [] = none
  lookup key (entry ∷ others) = if entry.0 == key then some entry.1 else lookup key others

  -- `contains_key`
  abbrev pub contains : Text → Dict V → Bool
  contains key entries = is_some (lookup key entries)

  unfoldable pub remove : Text → Dict V → Dict V
  remove key [] = []
  remove key (entry ∷ others) =
      let kept = remove key others in if entry.0 == key then kept else entry ∷ kept

  unfoldable pub insert : Text → V → Dict V → Dict V
  unfolding remove
  insert key value entries = (key, value) ∷ remove key entries

  pub lookup-remove :
      (key other : Text) (entries : Dict V)
      → lookup other (remove key entries) ≡ (if key == other then none else lookup other entries)
  unfolding lookup remove
  lookup-remove key other [] = ground arith
  lookup-remove key other (entry ∷ others) = ground (
    arith,
    lookup-remove key other others,
    ==_iff entry.0 key,
    ==_iff entry.0 other,
    ==_iff key other,
  )

  pub lookup-insert :
      (key other : Text) (value : V) (entries : Dict V)
      → lookup other (insert key value entries)
        ≡ (if key == other then some value else lookup other entries)
  unfolding lookup insert
  lookup-insert key other value entries = ground (arith, lookup-remove key other entries)

  pub lookup-insert_self :
      (key : Text) (value : V) (entries : Dict V)
      → lookup key (insert key value entries) ≡ some value
  lookup-insert_self key value entries = rw (lookup-insert, ==-refl) refl

-- A `HashMap<String, HashMap<String, V>>`: namespaces, then keys.
module _ {ℓ} {V : Type ℓ} where
  -- `unwrap_or_default`
  abbrev pub or_default : Option (Dict V) → Dict V
  or_default none = []
  or_default (some m) = m

  -- `d.get(ns)`, with the empty map where the namespace is missing
  abbrev pub entries : Text → Dict (Dict V) → Dict V
  entries ns d = or_default (lookup ns d)

  -- `d.get(ns).and_then(|m| m.get(k))`
  unfoldable pub lookup_in : Text → Text → Dict (Dict V) → Option V
  lookup_in ns k d = lookup k (entries ns d)

  -- `d.entry(ns).or_default().insert(k, v)`
  unfoldable pub insert_in : Text → Text → V → Dict (Dict V) → Dict (Dict V)
  insert_in ns k v d = insert ns (insert k v (entries ns d)) d

  -- `d.entry(ns).or_default().remove(k)`
  unfoldable pub remove_in : Text → Text → Dict (Dict V) → Dict (Dict V)
  remove_in ns k d = insert ns (remove k (entries ns d)) d

  entries-insert :
      (ns ns' : Text) (m : Dict V) (d : Dict (Dict V))
      → entries ns' (insert ns m d) ≡ (if ns == ns' then m else entries ns' d)
  entries-insert ns ns' m d = rw lookup-insert (ground arith)

  pub lookup_in-insert_in :
      (ns k ns' k' : Text) (v : V) (d : Dict (Dict V))
      → lookup_in ns' k' (insert_in ns k v d)
        ≡ (if ns == ns' && k == k' then some v else lookup_in ns' k' d)
  unfolding lookup_in insert_in
  lookup_in-insert_in ns k ns' k' v d = ground (
    arith,
    ==_iff ns ns',
    entries-insert ns ns' (insert k v (entries ns d)) d,
    lookup-insert k k' v (entries ns d),
  )

  pub lookup_in-remove_in :
      (ns k ns' k' : Text) (d : Dict (Dict V))
      → lookup_in ns' k' (remove_in ns k d)
        ≡ (if ns == ns' && k == k' then none else lookup_in ns' k' d)
  unfolding lookup_in remove_in
  lookup_in-remove_in ns k ns' k' d = ground (
    arith,
    ==_iff ns ns',
    entries-insert ns ns' (remove k (entries ns d)) d,
    lookup-remove k k' (entries ns d),
  )

  -- `if let Some(m) = d.get_mut(ns) { m.remove(k) }`
  unfoldable pub remove_within : Text → Text → Dict (Dict V) → Dict (Dict V)
  remove_within ns k d = elim (lookup ns d) [ none ↦ d | some m ↦ insert ns (remove k m) d ]

  pub lookup_in-remove_within :
      (ns k ns' k' : Text) (d : Dict (Dict V))
      → lookup_in ns' k' (remove_within ns k d)
        ≡ (if ns == ns' && k == k' then none else lookup_in ns' k' d)
  unfolding lookup_in remove_within lookup
  lookup_in-remove_within ns k ns' k' d = ground (
    arith,
    ==_iff ns ns',
    ==_iff k k',
    entries-insert ns ns' (remove k (entries ns d)) d,
    lookup-remove k k' (entries ns d),
  )
