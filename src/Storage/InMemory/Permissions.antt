-- ===== src/Storage/InMemory/Permissions.antt =====
-- InMemoryStorage: who may do what in which namespace.
use icn_covm.Prelude.{
  ◌≡◌, refl, Bool, false, ◌&&◌, ◌||◌, Option, none, some, Text, text, ◌==◌, ==_iff, arith,
}
use icn_covm.Prelude.Actions.{is_ok, ok}
use icn_covm.Storage.Auth.{AuthContext, has_role}
use icn_covm.Storage.InMemory.{check_permission}

-- The roles that permit an action: global admins and admins of the namespace may do everything,
-- its writers may read and write, its readers may read.
abbrev pub permitted : {J : Type 0} → Option (AuthContext J) → Text → Text → Bool
permitted none action ns = false
permitted (some a) action ns =
    (has_role a (text "global") (text "admin") || has_role a ns (text "admin"))
    || ((action == text "read" && (has_role a ns (text "reader") || has_role a ns (text "writer")))
        || (action == text "write" && has_role a ns (text "writer")))

pub write_ne_read : (text "write" == text "read") ≡ false
unfolding text ◌==◌
write_ne_read = refl

-- For every action, also an unknown one, `check_permission` succeeds exactly if the caller's roles
-- permit the action in the namespace; without a caller it fails.
pub check_permission-permitted :
    {J : Type 0} (auth : Option (AuthContext J)) (action ns : Text)
    → is_ok (check_permission auth action ns) ≡ permitted auth action ns
unfolding check_permission
check_permission-permitted none action ns = refl
check_permission-permitted (some a) action ns =
    ground (arith, ==_iff action (text "read"), ==_iff action (text "write"), write_ne_read)

-- Who may write in a namespace may read there too.
pub write_permits_read :
    {J : Type 0} (auth : Option (AuthContext J)) (ns : Text)
    → check_permission auth (text "write") ns ≡ ok tt
    → check_permission auth (text "read") ns ≡ ok tt
unfolding check_permission
write_permits_read none ns h = cc
write_permits_read (some a) ns h =
    ground (
      arith,
      ==_iff (text "read") (text "read"),
      ==_iff (text "write") (text "write"),
      write_ne_read,
    )
