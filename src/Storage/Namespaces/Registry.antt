-- ===== src/Storage/Namespaces/Registry.antt =====
-- The registry of namespaces: what registering and accounting keep.
use icn_covm.Prelude.{
  ℕ, ◌≤◌, ◌≡◌, refl, Bool, true, Option, none, some, Text, ◌==◌, eq_of_==, lookup, insert, contains,
  lookup-insert, ltb, Option-cases, Bool-cases, inl, inr, arith,
}
use icn_covm.Storage.Resource.{saturating_add}
use icn_covm.Prelude.Integers.{ℤ, pos, negsuc}
use icn_covm.Storage.Namespaces.{
  NamespaceMetadata, Registry, register_namespace, update_resource_usage,
}

abbrev pub has_parent : Option Text → Registry → Bool
has_parent none r = true
has_parent (some p) r = contains p r

-- what holds of the entry `m` at `path`
abbrev pub IsEntry : Registry → Text → NamespaceMetadata → Type 0
IsEntry r path m = (m.path ≡ path) × (m.used_bytes ≤ m.quota_bytes) × (has_parent m.parent r ≡ true)

-- Every entry names its own path, keeps within its quota, and has a registered parent or none.
abbrev pub IsValid : Registry → Type 0
IsValid r = (path : Text) (m : NamespaceMetadata) → lookup path r ≡ some m → IsEntry r path m

has_parent-insert :
    (o : Option Text) (path : Text) (m : NamespaceMetadata) (r : Registry)
    → has_parent o r ≡ true
    → has_parent o (insert path m r) ≡ true
has_parent-insert none path m r h = refl
has_parent-insert (some p) path m r h = rw lookup-insert (ground arith)

insert-IsValid :
    (path : Text) (m : NamespaceMetadata) (r : Registry)
    → IsEntry r path m
    → IsValid r
    → IsValid (insert path m r)
insert-IsValid path m r (named, fits, parent) valid other m' h = elim (Bool-cases (path == other)) [
  | inl same ↦
      let found : some m ≡ some m' = rw (lookup-insert, same) at h in
      let e : m ≡ m' = cc in
      rw (← e, ← eq_of_== path other same) (named, fits, has_parent-insert m.parent path m r parent)
  | inr differ ↦
      let (named', fits', parent') = valid other m' (rw (lookup-insert, differ) at h) in
      (named', fits', has_parent-insert m'.parent path m r parent')
]

-- Registering a namespace, with any arguments and whether it succeeds or fails, keeps the registry
-- valid.
pub register_namespace-IsValid :
    (path owner : Text) (quota : ℕ) (parent : Option Text) (r : Registry)
    → IsValid r
    → IsValid (register_namespace path owner quota parent r).1
unfolding register_namespace
register_namespace-IsValid path owner quota none r valid = elim (Bool-cases (contains path r)) [
  | inl known ↦ rw known valid
  | inr new ↦ rw new (insert-IsValid path _ r (refl, omega arith, refl) valid)
]
register_namespace-IsValid path owner quota (some p) r valid = elim (Bool-cases (contains path r)) [
  | inl known ↦ rw known valid
  | inr new ↦ elim (Bool-cases (contains p r)) [
    | inl there ↦ rw (new, there) (insert-IsValid path _ r (refl, omega arith, there) valid)
    | inr missing ↦ rw (new, missing) valid
  ]
]

-- A change of a namespace's usage, up or down and by any amount, keeps the registry valid: no
-- namespace comes to use more than its quota.
pub update_resource_usage-IsValid :
    (path : Text) (bytes_delta : ℤ) (r : Registry)
    → IsValid r
    → IsValid (update_resource_usage path bytes_delta r).1
unfolding update_resource_usage
update_resource_usage-IsValid path (pos n) r valid = elim (Option-cases (lookup path r)) [
  | inl e ↦ rw (update_resource_usage, e) valid
  | inr (m, e) ↦
      let (named, fits, parent) = valid path m e in
      elim (Bool-cases (ltb m.quota_bytes (saturating_add m.used_bytes n))) [
        | inl over ↦ rw (update_resource_usage, e, over) valid
        | inr within ↦
            rw (update_resource_usage, e, within)
              (insert-IsValid path _ r (named, ground arith, parent) valid)
      ]
]
update_resource_usage-IsValid path (negsuc n) r valid = elim (Option-cases (lookup path r)) [
  | inl e ↦ rw (update_resource_usage, e) valid
  | inr (m, e) ↦
      let (named, fits, parent) = valid path m e in
      rw (update_resource_usage, e) (insert-IsValid path _ r (named, omega arith, parent) valid)
]
