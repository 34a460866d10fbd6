-- ===== src/Storage/Namespaces/Tests.antt =====
-- The registry of namespaces: the theorems at a registry with one namespace.
use icn_covm.Prelude.{◌≡◌, refl, true, none, [], text, ◌==◌, lookup, insert}
use icn_covm.Prelude.Actions.{ok}
use icn_covm.Prelude.Integers.{pos}
use icn_covm.Storage.Namespaces.{
  Registry, register_namespace, update_resource_usage, parent_namespace, search,
  find_namespace_or_parent, has_permission,
}
use icn_covm.Storage.Namespaces.Search.{Closest, find_namespace_or_parent-Closest}
use icn_covm.Storage.Namespaces.Registry.{
  IsValid, register_namespace-IsValid, update_resource_usage-IsValid,
}

nothing-IsValid : IsValid []
unfolding lookup
nothing-IsValid path m h = absurd (cc)

abbrev one : Registry
one = (register_namespace (text "a") (text "al") 10 none []).1

one-IsValid : IsValid one
one-IsValid = register_namespace-IsValid (text "a") (text "al") 10 none [] nothing-IsValid

-- Up to the quota and not beyond.
usage_grows :
    ((update_resource_usage (text "a") (pos 10) one).0 ≡ ok tt)
    × ((update_resource_usage (text "a") (pos 11) one).1 ≡ one)
unfolding register_namespace update_resource_usage lookup insert text ◌==◌
usage_grows = (refl, refl)

update_resource_usage-IsValid_example : IsValid (update_resource_usage (text "a") (pos 10) one).1
update_resource_usage-IsValid_example =
    update_resource_usage-IsValid (text "a") (pos 10) one one-IsValid

find_namespace_or_parent-Closest_example :
    Closest one (text "a/b") (find_namespace_or_parent (text "a/b") one)
find_namespace_or_parent-Closest_example = find_namespace_or_parent-Closest (text "a/b") one

al_writes : has_permission (text "al") (text "write") (text "a/b") one ≡ true
unfolding has_permission find_namespace_or_parent search parent_namespace register_namespace lookup
    insert text ◌==◌
al_writes = refl
