-- ===== src/Federation.antt =====
-- crates/icn-covm/src/federation: proposals and votes that cooperatives share. The types of messages.rs,
-- and what identity.rs tells of a voter. `F` is the type of f64 values.
pub mod Votes
pub mod Cache
pub mod Ballots
pub mod Tests
use icn_covm.Prelude.{
  ℕ, Bool, true, false, Option, none, some, List, Text, text, ◌==◌, Dict, lookup,
}
use icn_covm.Prelude.Integers.{ℤ}
use icn_covm.Storage.Identity.{Identity}

pub data ProposalScope : Type 0 where
  single_coop : Text → ProposalScope
  multi_coop : List Text → ProposalScope
  global_federation : ProposalScope

pub data VotingModel : Type 0 where
  one_member_one_vote : VotingModel
  one_coop_one_vote : VotingModel

pub data ProposalStatus : Type 0 where
  open_status : ProposalStatus
  closed : ProposalStatus
  executed : ProposalStatus
  rejected : ProposalStatus
  expired : ProposalStatus

pub record FederatedProposal : Type 0 where
  pub proposal_id : Text
  pub namespace : Text
  pub options : List Text
  pub creator : Text
  pub created_at : ℤ
  pub scope : ProposalScope
  pub voting_model : VotingModel
  pub expires_at : Option ℤ
  pub status : ProposalStatus

pub record FederatedVote (F : Type 0) : Type 0 where
  pub proposal_id : Text
  pub voter : Text
  pub ranked_choices : List F
  pub message : Text
  pub signature : Text

abbrev pub is_open : ProposalStatus → Bool
is_open open_status = true
is_open s = false

-- `as_str` gives the text of a JSON string.
module _ {J : Type 0} (as_str : J → Option Text) where
  abbrev text_of : Option J → Option Text
  text_of none = none
  text_of (some v) = as_str v

  unfoldable pub get_metadata : Text → Identity J → Option Text
  get_metadata key identity = text_of (lookup key identity.profile.other_fields)

  abbrev is_text : Option Text → Text → Bool
  is_text none t = false
  is_text (some s) t = s == t

  unfoldable pub belongs_to : Text → Identity J → Bool
  belongs_to coop identity = is_text (get_metadata (text "coop_id") identity) coop

abbrev pub public_key : {J : Type 0} → Identity J → Option (List ℕ)
public_key identity = some identity.public_key_bytes

abbrev pub crypto_scheme : {J : Type 0} → Identity J → Option Text
crypto_scheme identity = some (text "ed25519")
