-- ===== src/Federation/Tests.antt =====
-- Federation: the theorems at a proposal to one cooperative and two votes of its members.
use icn_covm.Prelude.{
  ℕ, ◌≡◌, refl, true, none, some, List, [], ◌∷◌, Text, text, ◌==◌, Dict, lookup, insert,
}
use icn_covm.Prelude.Actions.{ok, ok_or, err}
use icn_covm.Prelude.Integers.{pos}
use icn_covm.Storage.Types.{not_found}
use icn_covm.Storage.Identity.{Identity}
use icn_covm.Federation.{
  single_coop, one_coop_one_vote, open_status, FederatedProposal, FederatedVote, is_open,
  belongs_to, get_metadata,
}
use icn_covm.Federation.Votes.{
  FederationBackend, Federation, put_vote, cache_vote, verify_signature, get_proposal, voter_of,
  check_signature, check_scope, save_vote,
}
use icn_covm.Federation.Cache.{OneVoteEach, MayVote, save_vote-OneVoteEach, save_vote-MayVote}
use icn_covm.Federation.Ballots.{group, latest, vote_of, group-latest}

-- votes are numbers in place of f64, and JSON values are texts
abbrev files : FederationBackend ℕ Text
files = record {
  S = Dict (List (FederatedVote ℕ));
  get_proposal_json = λ namespace key s. err (not_found key);
  set_proposal_json = λ auth namespace key p s. (ok tt, s);
  get_votes_json = λ namespace key s. ok_or (lookup key s) (not_found key);
  set_votes_json = λ namespace key votes s. (ok tt, insert key votes s);
  get_identity = λ voter s. err (not_found voter);
  show_error = λ e. [];
}

abbrev al : Identity Text
al = record {
  did = text "al";
  public_key_bytes = 1 ∷ [];
  private_key_bytes = none;
  public_key_multibase = text "z";
  profile = record {
    public_username = text "al";
    full_name = none;
    other_fields = (text "coop_id", text "mill") ∷ [];
  };
  identity_type = text "member";
}

abbrev proposal : FederatedProposal
proposal = record {
  proposal_id = text "p";
  namespace = text "federation";
  options = text "yes" ∷ text "no" ∷ [];
  creator = text "al";
  created_at = pos 1;
  scope = single_coop (text "mill");
  voting_model = one_coop_one_vote;
  expires_at = none;
  status = open_status;
}

abbrev vote_by : Text → ℕ → FederatedVote ℕ
vote_by voter choice = record {
  proposal_id = text "p";
  voter = voter;
  ranked_choices = choice ∷ [];
  message = text "m";
  signature = text "s";
}

abbrev state : Federation ℕ files.S
state = record {
  cache = record { proposals = (text "p", proposal) ∷ []; votes = [] };
  storage = [];
}

state-OneVoteEach : OneVoteEach state.cache
unfolding OneVoteEach lookup
state-OneVoteEach id = tt

save_vote-OneVoteEach_example :
    OneVoteEach (save_vote some files (vote_by (text "al") 1) (some al) state).1.cache
save_vote-OneVoteEach_example =
    save_vote-OneVoteEach some files (vote_by (text "al") 1) (some al) state state-OneVoteEach

saved : (save_vote some files (vote_by (text "al") 1) (some al) state).0 ≡ ok tt
unfolding save_vote get_proposal check_signature check_scope verify_signature belongs_to
    get_metadata lookup text ◌==◌
saved = refl

save_vote-MayVote_example :
    (p : FederatedProposal) × (identity : Identity Text) × (get_proposal some files (text "p") state
      ≡ ok p)
    × (is_open p.status ≡ true)
    × (voter_of some files (vote_by (text "al") 1) (some al) state ≡ ok identity)
    × (check_signature some files (vote_by (text "al") 1) identity ≡ ok tt)
    × MayVote some files p.scope identity
save_vote-MayVote_example =
    save_vote-MayVote some files (vote_by (text "al") 1) (some al) state saved

abbrev votes : List (FederatedVote ℕ)
votes = vote_by (text "al") 1 ∷ vote_by (text "bo") 2 ∷ vote_by (text "cy") 3 ∷ []

abbrev members : Dict (Identity Text)
members = (text "al", al) ∷ (text "bo", al) ∷ []

-- of the two votes from the mill the second counts
group-latest_example :
    vote_of some members (lookup (text "mill") (group some members 0 votes []))
    ≡ latest some members (text "mill") votes
group-latest_example = group-latest some members votes (text "mill")

mill_vote : latest some members (text "mill") votes ≡ some (vote_by (text "bo") 2)
unfolding get_metadata lookup text ◌==◌
mill_vote = refl

-- A second vote of a voter comes on top of the first in the storage.
saved_twice :
    (save_vote some files
      (vote_by (text "al") 2)
      (some al)
      (save_vote some files (vote_by (text "al") 1) (some al) state).1).1.storage
    ≡ (text "federation/votes/p", vote_by (text "al") 1 ∷ vote_by (text "al") 2 ∷ []) ∷ []
unfolding save_vote get_proposal check_signature check_scope verify_signature belongs_to
    get_metadata lookup insert text ◌==◌ cache_vote put_vote
saved_twice = refl
