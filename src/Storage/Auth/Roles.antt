-- ===== src/Storage/Auth/Roles.antt =====
-- AuthContext: what granting a role, a membership or a delegation changes.
use icn_covm.Prelude.{
  ◌≡◌, refl, Bool, ◌&&◌, ◌||◌, List, [], ◌∷◌, ◌++◌, Text, ◌==◌, ==_iff, lookup_in, insert_in,
  lookup, add_member, lookup_in-insert_in, member, member-add_member, any, arith,
}
use icn_covm.Storage.Auth.{
  AuthContext, holders, add_role_to_identity, has_role_for_identity, add_membership, is_member,
  add_delegation, has_delegation,
}

any-append_one :
    {A : Type 0} (p : A → Bool) (xs : List A) (x : A) → any p (xs ++ x ∷ []) ≡ (any p xs || p x)
any-append_one p [] x = ground arith
any-append_one p (y ∷ xs) x = ground (arith, any-append_one p xs x)

module _ {J : Type 0} where
  has_role-eq-member :
      (a : AuthContext J) (did ns role : Text)
      → has_role_for_identity a did ns role ≡ member did (holders (lookup_in ns role a.roles))
  unfolding has_role_for_identity lookup_in lookup member
  has_role-eq-member a did ns role = ground arith

  roles-add_role :
      (a : AuthContext J) (did ns role : Text)
      → (add_role_to_identity did ns role a).roles
        ≡ insert_in ns role (add_member did (holders (lookup_in ns role a.roles))) a.roles
  unfolding add_role_to_identity insert_in lookup_in
  roles-add_role a did ns role = refl

  -- After a role is granted, an identity holds a role in a namespace exactly if identity, namespace
  -- and role are the granted ones or it held that role there before.
  pub has_role-add_role :
      (a : AuthContext J) (did ns role did' ns' role' : Text)
      → has_role_for_identity (add_role_to_identity did ns role a) did' ns' role'
        ≡ ((did == did' && (ns == ns' && role == role')) || has_role_for_identity a did' ns' role')
  has_role-add_role a did ns role did' ns' role' =
      rw (has_role-eq-member, roles-add_role, lookup_in-insert_in, has_role-eq-member)
        (ground (
          arith,
          ==_iff ns ns',
          ==_iff role role',
          member-add_member did did' (holders (lookup_in ns role a.roles)),
        ))

  -- After a membership is added, an identity is a member of a namespace exactly if the two are the
  -- added ones or it was a member before.
  pub is_member-add_membership :
      (a : AuthContext J) (did ns did' ns' : Text)
      → is_member (add_membership did ns a) did' ns'
        ≡ (is_member a did' ns' || (did == did' && ns == ns'))
  unfolding is_member add_membership
  is_member-add_membership a did ns did' ns' = any-append_one _ a.memberships _

  -- After a delegation is added, one exists between two identities exactly if they are the added
  -- pair or one existed before; its type plays no part.
  pub has_delegation-add_delegation :
      (a : AuthContext J) (from to kind from' to' : Text)
      → has_delegation (add_delegation from to kind a) from' to'
        ≡ (has_delegation a from' to' || (from == from' && to == to'))
  unfolding has_delegation add_delegation
  has_delegation-add_delegation a from to kind from' to' = any-append_one _ a.delegations _
