-- ===== src/Storage/Auth.antt =====
-- storage/auth.rs: who is calling, and with which roles, memberships and delegations.
pub mod Roles
use icn_covm.Prelude.{
  ℕ, Bool, true, false, ◌&&◌, Option, none, some, List, [], ◌∷◌, ◌++◌, Text, ◌==◌, Dict, lookup,
  insert, is_some, entries, any, member, add_member,
}
use icn_covm.Storage.Identity.{Identity}

pub record Membership : Type 0 where
  pub identity_did : Text
  pub namespace : Text
  pub metadata : Dict Text

pub record Delegation : Type 0 where
  pub delegator_did : Text
  pub delegate_did : Text
  pub delegation_type : Text
  pub metadata : Dict Text

-- `roles` goes from a namespace to a role name to the DIDs that hold it.
pub record AuthContext (J : Type 0) : Type 0 where
  pub current_identity_did : Text
  pub identity_registry : Dict (Identity J)
  pub roles : Dict (Dict (List Text))
  pub memberships : List Membership
  pub delegations : List Delegation

-- `or_insert_with(HashSet::new)`
abbrev pub holders : Option (List Text) → List Text
holders none = []
holders (some s) = s

module _ {J : Type 0} where
  -- `AuthContext::new`
  abbrev pub new : Text → AuthContext J
  new did = record {
    current_identity_did = did;
    identity_registry = [];
    roles = [];
    memberships = [];
    delegations = [];
  }

  pub register_identity : Identity J → AuthContext J → AuthContext J
  register_identity i a = record a { identity_registry = insert i.did i a.identity_registry }

  unfoldable pub add_role_to_identity : Text → Text → Text → AuthContext J → AuthContext J
  add_role_to_identity did namespace role a =
      let namespace_roles = entries namespace a.roles in
      let role_identities = holders (lookup role namespace_roles) in
      record a {
        roles =
            insert namespace (insert role (add_member did role_identities) namespace_roles) a.roles;
      }

  unfoldable pub add_role : Text → Text → AuthContext J → AuthContext J
  add_role namespace role a = add_role_to_identity a.current_identity_did namespace role a

  unfoldable pub add_membership : Text → Text → AuthContext J → AuthContext J
  add_membership did namespace a =
      let membership : Membership = record {
        identity_did = did;
        namespace = namespace;
        metadata = [];
      } in
      record a { memberships = a.memberships ++ membership ∷ [] }

  unfoldable pub add_delegation : Text → Text → Text → AuthContext J → AuthContext J
  add_delegation delegator delegate delegation_type a =
      let delegation : Delegation = record {
        delegator_did = delegator;
        delegate_did = delegate;
        delegation_type = delegation_type;
        metadata = [];
      } in
      record a { delegations = a.delegations ++ delegation ∷ [] }

  unfoldable pub has_role_for_identity : AuthContext J → Text → Text → Text → Bool
  has_role_for_identity a did namespace role = elim (lookup namespace a.roles) [
    | none ↦ false
    | some namespace_roles ↦ elim (lookup role namespace_roles) [
      | none ↦ false
      | some role_identities ↦ member did role_identities
    ]
  ]

  unfoldable pub has_role : AuthContext J → Text → Text → Bool
  has_role a namespace role = has_role_for_identity a a.current_identity_did namespace role

  unfoldable pub is_member : AuthContext J → Text → Text → Bool
  is_member a did namespace =
      any (λ m. m.identity_did == did && m.namespace == namespace) a.memberships

  unfoldable pub has_delegation : AuthContext J → Text → Text → Bool
  has_delegation a delegator delegate =
      any (λ d. d.delegator_did == delegator && d.delegate_did == delegate) a.delegations

  -- The signature itself is not looked at.
  pub verify_signature : AuthContext J → Text → List ℕ → Text → Bool
  verify_signature a did message signature = is_some (lookup did a.identity_registry)
