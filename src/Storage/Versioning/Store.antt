-- ===== src/Storage/Versioning/Store.antt =====
-- VersionStore: what is kept, and what is found.
use icn_covm.Prelude.{
  ℕ, zero, suc, ◌+◌, ◌-◌, ◌≤◌, ◌<◌, ◌≡◌, refl, some, List, [], ◌∷◌, ◌++◌, length, drop,
  length-append, length-drop, dec_lt, ◌∙◌, arith,
}
use icn_covm.Storage.Versioning.{VersionInfo, VersionStore, trim, add_version, last, get_current}

module _ {T : Type 0} where
  -- Trimming drops exactly the oldest entries that are too many.
  trim-eq-drop : (max : ℕ) (xs : List (VersionInfo × T)) → trim max xs ≡ drop (length xs - max) xs
  unfolding trim
  trim-eq-drop max [] = drop-nil (0 - max)
    where
      drop-nil : (n : ℕ) → [] ≡ drop {A = VersionInfo × T} n []
      drop-nil zero = refl
      drop-nil (suc n) = refl
  trim-eq-drop max (x ∷ xs) = elim (dec_lt max (suc (length xs))) [
    | yes h ↦
        rw (let e : suc (length xs) - max ≡ suc (length xs - max) = omega arith in e)
          (ground (arith, trim-eq-drop max xs))
    | no h ↦ rw (let e : suc (length xs) - max ≡ 0 = omega arith in e) (ground arith)
  ]

  last-append : (xs : List (VersionInfo × T)) (y : VersionInfo × T) → last (xs ++ y ∷ []) ≡ some y
  last-append [] y = refl
  last-append (x ∷ []) y = refl
  last-append (x ∷ (z ∷ xs)) y = last-append (z ∷ xs) y

  last-drop : (n : ℕ) (xs : List (VersionInfo × T)) → n < length xs → last (drop n xs) ≡ last xs
  last-drop zero xs h = refl
  last-drop (suc n) [] h = elim h [ ]
  last-drop (suc n) (x ∷ []) h = absurd (omega arith)
  last-drop (suc n) (x ∷ (y ∷ xs)) h = last-drop n (y ∷ xs) (omega arith)

  versions-add_version :
      (info : VersionInfo) (contents : T) (s : VersionStore T)
      → (add_version info contents s).versions
        ≡ drop (length s.versions + 1 - s.max_versions) (s.versions ++ (info, contents) ∷ [])
  unfolding add_version
  versions-add_version info contents s = rw (trim-eq-drop, length-append) refl

  -- Adding a version keeps the newest `max_versions` entries, the added one included, in order, and
  -- never holds more than that many.
  pub add_version_keeps :
      (info : VersionInfo) (contents : T) (s : VersionStore T)
      → ((add_version info contents s).versions
          ≡ drop (length s.versions + 1 - s.max_versions) (s.versions ++ (info, contents) ∷ []))
        × (length (add_version info contents s).versions ≤ s.max_versions)
  add_version_keeps info contents s = (
    versions-add_version info contents s,
    rw (versions-add_version, length-drop, length-append) (omega arith),
  )

  -- In a store that keeps at least one version, the added version is the current one.
  pub get_current-add_version :
      (info : VersionInfo) (contents : T) (s : VersionStore T)
      → 1 ≤ s.max_versions
      → get_current (add_version info contents s) ≡ some (info, contents)
  unfolding get_current
  get_current-add_version info contents s h =
      let e = length-append s.versions ((info, contents) ∷ []) in
      let xs = s.versions ++ (info, contents) ∷ [] in
      rw versions-add_version (
        last-drop (length s.versions + 1 - s.max_versions) xs (omega arith)
        ∙ last-append s.versions (info, contents))
