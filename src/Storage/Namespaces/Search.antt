-- ===== src/Storage/Namespaces/Search.antt =====
-- The registry of namespaces: the search for the closest ancestor that is registered.
use icn_covm.Prelude.{
  ℕ, zero, suc, ◌+◌, ◌≤◌, ◌<◌, ◌≡◌, ◌≢◌, ◌⊎◌, refl, sym, ap, ◌++◌, nat_eq, nat_eq_iff, true, false,
  Option, none, some, [], ◌∷◌, Text, text, ◌==◌, eq_of_==, ==-refl, lookup, if◌then◌else◌, length,
  take, Option-cases, Bool-cases, inl, inr, arith,
}
use icn_covm.Storage.Namespaces.{
  NamespaceMetadata, Registry, last_slash, parent_namespace, search, find_namespace_or_parent,
  has_permission,
}

last_slash_bound : (path : Text) {i : ℕ} → last_slash path ≡ some i → i < length path
last_slash_bound [] h = absurd (cc)
last_slash_bound (c ∷ cs) {i} h = elim (Option-cases (last_slash cs)) [
  | inl e ↦ ground arith
  | inr (j, e) ↦ ground (arith, last_slash_bound cs e)
]

length-take : (i : ℕ) (xs : Text) → length (take i xs) ≤ i
length-take zero xs = omega arith
length-take (suc i) [] = omega arith
length-take (suc i) (x ∷ xs) = omega (arith, length-take i xs)

parent_shorter : (c : ℕ) (cs : Text) → length (parent_namespace (c ∷ cs)) < length (c ∷ cs)
unfolding parent_namespace
parent_shorter c cs = elim (Option-cases (last_slash (c ∷ cs))) [
  | inl e ↦ rw e (omega arith)
  | inr (i, e) ↦ rw e (omega (arith, length-take i (c ∷ cs), last_slash_bound (c ∷ cs) e))
]

root_stays : (parent_namespace [] == []) ≡ true
unfolding parent_namespace
root_stays = ==-refl []

-- From every path the search comes to an end, with one pass more than the path has bytes.
pub search_total :
    (path : Text) (r : Registry) (fuel : ℕ)
    → length path + 1 ≤ fuel
    → (o : Option NamespaceMetadata) × (search fuel path r ≡ some o)
unfolding search
search_total path r zero h = absurd (omega arith)
search_total [] r (suc fuel) h = elim (Option-cases (lookup [] r)) [
  | inl e ↦ (none, rw (e, root_stays) refl)
  | inr (m, e) ↦ (some m, rw e refl)
]
search_total (c ∷ cs) r (suc fuel) h = elim (Option-cases (lookup (c ∷ cs) r)) [
  | inr (m, e) ↦ (some m, rw e refl)
  | inl e ↦ elim (Bool-cases (parent_namespace (c ∷ cs) == (c ∷ cs))) [
    | inl root ↦ (none, rw (e, root) refl)
    | inr below ↦
        rw (e, below)
          (search_total (parent_namespace (c ∷ cs)) r fuel (omega (arith, parent_shorter c cs)))
  ]
]

abbrev pub Slashless : Text → Type 0
Slashless [] = Unit
Slashless (c ∷ cs) = (nat_eq c b'/' ≡ false) × Slashless cs

-- `q` is the part of `p` before its last slash, or the root if `p` is another path without one.
abbrev pub Parent : Text → Text → Type 0
Parent p q =
    ((rest : Text) × (p ≡ q ++ b'/' ∷ rest) × Slashless rest) ⊎ ((p ≢ []) × Slashless p × (q ≡ []))

last_slash-none : (path : Text) → last_slash path ≡ none → Slashless path
last_slash-none [] h = tt
last_slash-none (c ∷ cs) h = elim (Option-cases (last_slash cs)) [
  | inr (i, e) ↦ absurd (let q = (rw (e) at h) in cc)
  | inl e ↦ elim (Bool-cases (nat_eq c b'/')) [
    | inl s ↦ absurd (let q = (rw (e, s) at h) in cc)
    | inr s ↦ (s, last_slash-none cs e)
  ]
]

last_slash-some :
    (path : Text) (i : ℕ)
    → last_slash path ≡ some i
    → (rest : Text) × (path ≡ take i path ++ b'/' ∷ rest) × Slashless rest
last_slash-some [] i h = absurd (cc)
last_slash-some (c ∷ cs) i h = elim (Option-cases (last_slash cs)) [
  | inr (j, e) ↦
      let (rest, split, free) = last_slash-some cs j e in
      let same : suc j ≡ i = (let q = (rw (e) at h) in cc) in
      (rest, rw (sym same) (ap (λ x. c ∷ x) split), free)
  | inl e ↦ elim (Bool-cases (nat_eq c b'/')) [
    | inl s ↦
        let same : zero ≡ i = (let q = (rw (e, s) at h) in cc) in
        let slash : c ≡ b'/' = (nat_eq_iff c b'/').0 s in
        (cs, rw (sym same) (ap (λ x. x ∷ cs) slash), last_slash-none cs e)
    | inr s ↦ absurd (let q = (rw (e, s) at h) in cc)
  ]
]

parent_namespace-Parent : (c : ℕ) (cs : Text) → Parent (c ∷ cs) (parent_namespace (c ∷ cs))
unfolding parent_namespace
parent_namespace-Parent c cs = elim (Option-cases (last_slash (c ∷ cs))) [
  | inl e ↦ rw (e) (inr ((λ h. absurd (cc)), last_slash-none (c ∷ cs) e, refl))
  | inr (i, e) ↦ rw (e) (inl (last_slash-some (c ∷ cs) i e))
]

-- What the registry has for a path: the namespace of the path itself, or what it has for the parent,
-- and nothing if not even the root is registered.
pub data Closest (r : Registry) : Text → Option NamespaceMetadata → Type 0 where
  itself : {p : Text} (m : NamespaceMetadata) → lookup p r ≡ some m → Closest r p (some m)
  nowhere : lookup [] r ≡ none → Closest r [] none
  above :
      {p q : Text} {o : Option NamespaceMetadata}
      → lookup p r ≡ none
      → Parent p q
      → Closest r q o
      → Closest r p o

search-Closest :
    (fuel : ℕ) (path : Text) (r : Registry) (o : Option NamespaceMetadata)
    → search fuel path r ≡ some o
    → Closest r path o
unfolding search
search-Closest zero path r o h = absurd (cc)
search-Closest (suc fuel) [] r o h = elim (Option-cases (lookup [] r)) [
  | inl e ↦
      let same : none ≡ o = (let q = (rw (e, root_stays) at h) in cc) in rw (sym same) (nowhere e)
  | inr (m, e) ↦ let same : some m ≡ o = (let q = (rw (e) at h) in cc) in rw (sym same) (itself m e)
]
search-Closest (suc fuel) (c ∷ cs) r o h = elim (Option-cases (lookup (c ∷ cs) r)) [
  | inr (m, e) ↦ let same : some m ≡ o = (let q = (rw (e) at h) in cc) in rw (sym same) (itself m e)
  | inl e ↦ elim (Bool-cases (parent_namespace (c ∷ cs) == (c ∷ cs))) [
    | inl root ↦
        let same = ap length (eq_of_== _ _ root) in
        let shorter = parent_shorter c cs in absurd (omega arith)
    | inr below ↦
        above e (parent_namespace-Parent c cs)
          (search-Closest fuel (parent_namespace (c ∷ cs)) r o ((rw (e, below) at h)))
  ]
]

-- The search gives the namespace of the path itself where that is registered, or else the one of the
-- closest ancestor that is, going up by dropping what follows the last slash and at last to the
-- root, and it gives nothing only where the path and all its ancestors are missing.
pub find_namespace_or_parent-Closest :
    (path : Text) (r : Registry) → Closest r path (find_namespace_or_parent path r)
unfolding find_namespace_or_parent
find_namespace_or_parent-Closest path r =
    let (o, e) = search_total path r (length path + 1) (omega arith) in
    rw (e) (search-Closest (length path + 1) path r o e)

write_not_read : (text "write" == text "read") ≡ false
unfolding text ◌==◌
write_not_read = refl

owns :
    (owner user : Text)
    → (if owner == user
        then true
        else if text "write" == text "read"
        then true
        else if text "write" == text "write"
        then owner == user
        else false)
      ≡ true
    → (owner == user) ≡ true
owns owner user h = ground (arith, write_not_read)

-- Whoever may write in a namespace, registered or not, owns it or its closest registered ancestor.
pub has_permission-owner :
    (user path : Text) (r : Registry)
    → has_permission user (text "write") path r ≡ true
    → (m : NamespaceMetadata) × (find_namespace_or_parent path r ≡ some m) × (m.owner ≡ user)
unfolding has_permission
has_permission-owner user path r h = elim (Option-cases (find_namespace_or_parent path r)) [
  | inl e ↦ absurd (ground arith)
  | inr (m, e) ↦ (m, e, eq_of_== m.owner user (owns m.owner user (rw (has_permission, e) at h)))
]
