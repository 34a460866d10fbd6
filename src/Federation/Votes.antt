-- ===== src/Federation/Votes.antt =====
-- federation/storage.rs: the proposals and votes, in the storage and in a cache. The lock of the cache
-- is never poisoned here. JSON is part of the interface of the storage.
use icn_covm.Prelude.{
  ℕ, Bool, true, false, not, ◌&&◌, ◌||◌, Option, none, some, List, [], ◌∷◌, ◌++◌, Text, text, ◌==◌,
  Dict, lookup, insert, if◌then◌else◌,
}
use icn_covm.Prelude.Actions.{
  ok, err, Action, query, lift, modify, fail_if, ok_or, then_do, ◌>>=◌, ◌>>◌,
}
use icn_covm.Storage.Types.{StorageError, StorageResult, other, not_found}
use icn_covm.Storage.Auth.{AuthContext}
use icn_covm.Storage.Identity.{Identity}
use icn_covm.Federation.{
  ProposalScope, single_coop, multi_coop, global_federation, FederatedProposal, FederatedVote,
  is_open, belongs_to, public_key, crypto_scheme,
}

pub record FederationCache (F : Type 0) : Type 0 where
  pub proposals : Dict FederatedProposal
  pub votes : Dict (List (FederatedVote F))

-- `StorageExtensions` as the federation uses it, with the text of an error
pub record FederationBackend (F J : Type 0) : Type 1 where
  pub S : Type 0
  pub get_proposal_json : (namespace key : Text) → S → StorageResult FederatedProposal
  pub set_proposal_json :
      Option (AuthContext J)
      → (namespace key : Text) → FederatedProposal
      → Action S StorageError (Unit {0})
  pub get_votes_json : (namespace key : Text) → S → StorageResult (List (FederatedVote F))
  pub set_votes_json :
      (namespace key : Text) → List (FederatedVote F) → Action S StorageError (Unit {0})
  pub get_identity : Text → S → StorageResult (Identity J)
  pub show_error : StorageError → Text

pub record Federation (F S : Type 0) : Type 0 where
  pub cache : FederationCache F
  pub storage : S

abbrev pub make_proposal_key : Text → Text
make_proposal_key id = text "federation/proposals/" ++ id

abbrev pub make_votes_key : Text → Text
make_votes_key id = text "federation/votes/" ++ id

abbrev pub votes_namespace : Text
votes_namespace = text "votes"

abbrev pub cached : {A : Type 0} → Option A → StorageResult A → StorageResult A
cached none stored = stored
cached (some a) stored = ok a

abbrev pub or_nil : {A : Type 0} → Option (List A) → List A
or_nil none = []
or_nil (some list) = list

-- a vote replaces the one of the same voter, or comes last
unfoldable pub put_vote :
    {F : Type 0} → FederatedVote F → List (FederatedVote F) → List (FederatedVote F)
put_vote vote [] = vote ∷ []
put_vote vote (v ∷ votes) =
    let rest = put_vote vote votes in if v.voter == vote.voter then vote ∷ votes else v ∷ rest

unfoldable pub cache_vote : {F : Type 0} → FederatedVote F → FederationCache F → FederationCache F
cache_vote vote cache = record cache {
  votes =
      insert vote.proposal_id (put_vote vote (or_nil (lookup vote.proposal_id cache.votes)))
        cache.votes;
}

abbrev cache_proposal : {F : Type 0} → FederatedProposal → FederationCache F → FederationCache F
cache_proposal p cache = record cache { proposals = insert p.proposal_id p cache.proposals }

abbrev is_empty : {A : Type 0} → List A → Bool
is_empty [] = true
is_empty (c ∷ t) = false

-- The source calls this check a mock; it accepts two texts as the signature of anything.
unfoldable pub verify_signature : (message signature scheme : Text) → List ℕ → Bool
verify_signature message signature scheme key =
    (signature == text "valid" || signature == text "mock_signature")
    || ((scheme == text "ed25519" || scheme == text "secp256k1")
        && (not (is_empty signature) && (not (is_empty message) && not (is_empty key))))

module _ {F J : Type 0} (as_str : J → Option Text) (B : FederationBackend F J) where
  open B use {S}

  abbrev explain : {A : Type 0} → Text → StorageResult A → StorageResult A
  explain failure (ok a) = ok a
  explain failure (err e) = err (other (failure ++ B.show_error e))

  abbrev on_storage :
      {A : Type 0} → Action S StorageError A → Action (Federation F S) StorageError A
  on_storage m s = let (r, storage) = m s.storage in (r, record s { storage = storage })

  abbrev explained : {A : Type 0} → Text → Action S StorageError A → Action S StorageError A
  explained failure m s = let (r, s') = m s in (explain failure r, s')

  abbrev save :
      Text
      → Option (AuthContext J)
      → FederatedProposal
      → Action (Federation F S) StorageError (Unit {0})
  save failure auth p = do
    on_storage (
        explained failure
          (B.set_proposal_json auth p.namespace (make_proposal_key p.proposal_id) p))
    modify (λ s. record s { cache = cache_proposal p s.cache })

  unfoldable pub save_proposal : FederatedProposal → Action (Federation F S) StorageError (Unit {0})
  save_proposal = save (text "Failed to save proposal to storage: ") none

  unfoldable pub save_proposal_with_auth :
      Option (AuthContext J) → FederatedProposal → Action (Federation F S) StorageError (Unit {0})
  save_proposal_with_auth = save (text "Failed to save proposal to storage with auth: ")

  unfoldable pub get_proposal : Text → Federation F S → StorageResult FederatedProposal
  get_proposal id s = cached (lookup id s.cache.proposals) (
      explain (text "Failed to retrieve proposal " ++ (id ++ text ": "))
        (B.get_proposal_json (text "federation") (make_proposal_key id) s.storage))

  unfoldable pub get_votes : Text → Federation F S → StorageResult (List (FederatedVote F))
  get_votes id s = cached (lookup id s.cache.votes) (
      explain (text "Failed to retrieve votes for proposal " ++ (id ++ text ": "))
        (B.get_votes_json votes_namespace (make_votes_key id) s.storage))

  abbrev found : Text → StorageResult (Identity J) → StorageResult (Identity J)
  found voter (ok identity) = ok identity
  found voter (err e) = err (not_found (text "Identity for voter " ++ (voter ++ text " not found")))

  -- the identity that is given, or else the one in the storage
  abbrev pub voter_of :
      FederatedVote F → Option (Identity J) → Federation F S → StorageResult (Identity J)
  voter_of vote (some identity) s = ok identity
  voter_of vote none s = found vote.voter (B.get_identity vote.voter s.storage)

  unfoldable pub check_signature : FederatedVote F → Identity J → StorageResult (Unit {0})
  check_signature vote identity =
      then_do
        (ok_or (public_key identity)
          (other (text "No public key available for voter " ++ vote.voter)))
        (λ key.
          then_do
            (ok_or (crypto_scheme identity)
              (other (text "No crypto scheme specified for voter " ++ vote.voter)))
            (λ scheme.
              if verify_signature vote.message vote.signature scheme key
              then ok tt
              else err (other (text "Invalid signature for vote from " ++ vote.voter))))

  abbrev pub belongs_to_any : List Text → Identity J → Bool
  belongs_to_any [] identity = false
  belongs_to_any (coop ∷ coops) identity =
      belongs_to as_str coop identity || belongs_to_any coops identity

  unfoldable pub check_scope : ProposalScope → Identity J → StorageResult (Unit {0})
  check_scope (single_coop coop) identity =
      if belongs_to as_str coop identity
      then ok tt
      else err (other (text "Voter not a member of eligible cooperative " ++ coop))
  check_scope (multi_coop coops) identity =
      if belongs_to_any coops identity
      then ok tt
      else err (other (text "Voter not a member of any eligible cooperatives"))
  check_scope global_federation identity = ok tt

  -- the votes in the storage, none where the key is missing
  abbrev pub existing :
      StorageResult (List (FederatedVote F)) → StorageResult (List (FederatedVote F))
  existing (ok votes) = ok votes
  existing (err (not_found key)) = ok []
  existing (err e) = err (other (text "Failed to retrieve existing votes: " ++ B.show_error e))

  abbrev pub stored_votes :
      FederatedVote F → Federation F S → StorageResult (List (FederatedVote F))
  stored_votes vote s =
      existing (B.get_votes_json votes_namespace (make_votes_key vote.proposal_id) s.storage)

  abbrev pub store_vote : FederatedVote F → Action (Federation F S) StorageError (Unit {0})
  store_vote vote = do
    votes ← query (stored_votes vote)
    on_storage (
        explained (text "Failed to save votes to storage: ")
          (B.set_votes_json votes_namespace (make_votes_key vote.proposal_id) (votes ++ vote ∷ [])))
    modify (λ s. record s { cache = cache_vote vote s.cache })

  unfoldable pub save_vote :
      FederatedVote F → Option (Identity J) → Action (Federation F S) StorageError (Unit {0})
  save_vote vote voter_identity = do
    proposal ← query (get_proposal vote.proposal_id)
    fail_if (not (is_open proposal.status))
        (other (text "Proposal " ++ (vote.proposal_id ++ text " is not open for voting")))
    identity ← query (voter_of vote voter_identity)
    lift (check_signature vote identity)
    lift (check_scope proposal.scope identity)
    store_vote vote
