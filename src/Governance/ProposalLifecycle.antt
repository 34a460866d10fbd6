-- ===== src/Governance/ProposalLifecycle.antt =====
-- governance/proposal_lifecycle.rs: the life of a proposal. Times are milliseconds since the epoch
-- and durations milliseconds, neither negative. Every call is given its readings of the clock, in
-- the order in which it makes them.
pub mod Moves
pub mod Voting
pub mod Tests
use icn_covm.Prelude.{
  ℕ, ◌+◌, ◌%◌, ◌≡◌, Bool, true, false, not, ◌&&◌, Option, none, some, List, [], ◌∷◌, ◌++◌, Text,
  if◌then◌else◌, ltb, leb, nat_eq, min,
}
use icn_covm.Prelude.Actions.{Result, ok, err}
use icn_covm.Storage.Identity.{Identity}

pub data ProposalState : Type 0 where
  draft : ProposalState
  open_feedback : ProposalState
  voting : ProposalState
  executed : ProposalState
  rejected : ProposalState
  expired : ProposalState

pub data ExecutionStatus : Type 0 where
  success : ExecutionStatus
  failure : Text → ExecutionStatus

pub data VoteWeighting : Type 0 where
  equal : VoteWeighting
  reputation : VoteWeighting
  stake : VoteWeighting
  tenure : VoteWeighting
  quadratic : VoteWeighting
  delegated : VoteWeighting
  custom : Text → VoteWeighting

pub data QuorumMethod : Type 0 where
  percentage : ℕ → QuorumMethod
  fixed_number : ℕ → QuorumMethod
  no_quorum : QuorumMethod

pub record ProposalLifecycle (J : Type 0) : Type 0 where
  pub id : Text
  pub creator : Identity J
  pub created_at : ℕ
  pub state : ProposalState
  pub title : Text
  pub quorum_method : QuorumMethod
  pub approval_threshold : ℕ
  pub expires_at : Option ℕ
  pub discussion_duration : Option ℕ
  pub vote_weighting : VoteWeighting
  pub required_participants : Option ℕ
  pub current_version : ℕ
  pub auto_execute : Bool
  pub allow_early_execution : Bool
  pub min_voting_period : Option ℕ
  pub history : List (ℕ × ProposalState)
  pub execution_status : Option ExecutionStatus

abbrev pub is_draft : ProposalState → Bool
is_draft draft = true
is_draft _ = false

abbrev pub is_open : ProposalState → Bool
is_open open_feedback = true
is_open _ = false

abbrev pub is_voting : ProposalState → Bool
is_voting voting = true
is_voting _ = false

-- `expires_at.map_or(false, |exp| now > exp)`
abbrev pub is_past : Option ℕ → ℕ → Bool
is_past none now = false
is_past (some expires) now = ltb expires now

-- `now < expires_at` where there is an expiration
abbrev pub is_early : Option ℕ → ℕ → Bool
is_early none now = false
is_early (some expires) now = ltb now expires

-- `expires_at`, from the readings before and after the duration was compared
abbrev pub voting_expiry : ℕ → ℕ → ℕ → Option ℕ → ℕ
voting_expiry now now' duration none = now + duration
voting_expiry now now' duration (some period) =
    if ltb duration period then now' + period else now + duration

module _ {J : Type 0} where
  unfoldable pub new :
      ℕ
      → Text
      → Identity J
      → Text
      → QuorumMethod
      → ℕ
      → VoteWeighting
      → Option ℕ
      → Option ℕ
      → ProposalLifecycle J
  new now id creator title quorum threshold weighting discussion participants = record {
    id = id;
    creator = creator;
    created_at = now;
    state = draft;
    title = title;
    quorum_method = quorum;
    approval_threshold = threshold;
    expires_at = none;
    discussion_duration = discussion;
    vote_weighting = weighting;
    required_participants = participants;
    current_version = 1;
    auto_execute = false;
    allow_early_execution = false;
    min_voting_period = none;
    history = (now, draft) ∷ [];
    execution_status = none;
  }

  -- `threshold as u8` keeps the low eight bits.
  unfoldable pub new_backwards_compatible :
      ℕ → Text → Identity J → Text → ℕ → ℕ → Option ℕ → Option ℕ → ProposalLifecycle J
  unfolding new
  new_backwards_compatible now id creator title quorum threshold discussion participants =
      new now id creator title
        (if nat_eq quorum 0
          then no_quorum
          else if leb quorum 100
          then percentage quorum
          else fixed_number quorum)
        (min (threshold % 256) 100) equal discussion participants

  -- the new state, and its entry in the history
  abbrev pub enter : ℕ → ProposalState → ProposalLifecycle J → ProposalLifecycle J
  enter now s p = record p { state = s; history = p.history ++ (now, s) ∷ [] }

  unfoldable pub open_for_feedback : ℕ → ProposalLifecycle J → ProposalLifecycle J
  open_for_feedback now p = if is_draft p.state then enter now open_feedback p else p

  unfoldable pub start_voting : ℕ → ℕ → ℕ → ℕ → ProposalLifecycle J → ProposalLifecycle J
  start_voting now now' recorded duration p =
      if is_open p.state
      then record (enter recorded voting p) {
        expires_at = some (voting_expiry now now' duration p.min_voting_period);
      }
      else p

  unfoldable pub execute : ℕ → ℕ → ProposalLifecycle J → ProposalLifecycle J
  execute now recorded p =
      if is_voting p.state
      then if not p.allow_early_execution && is_early p.expires_at now
        then p
        else enter recorded executed p
      else p

  unfoldable pub reject : ℕ → ProposalLifecycle J → ProposalLifecycle J
  reject now p = if is_voting p.state then enter now rejected p else p

  unfoldable pub expire : ℕ → ℕ → ProposalLifecycle J → ProposalLifecycle J
  expire now recorded p =
      if is_voting p.state && is_past p.expires_at now then enter recorded expired p else p

  -- the proposal after the call, and what it returns
  unfoldable pub check_expiry : ℕ → ℕ → ProposalLifecycle J → Bool × ProposalLifecycle J
  check_expiry now recorded p =
      if is_voting p.state && is_past p.expires_at now
      then (true, enter recorded expired p)
      else (false, p)

  unfoldable pub update_version : ℕ → ProposalLifecycle J → ProposalLifecycle J
  update_version now p = record p {
    current_version = p.current_version + 1;
    history = p.history ++ (now, p.state) ∷ [];
  }

  -- The transitions by a vote. `verdict` is what `tally_votes` and then `check_passed` give, or the
  -- first error; neither changes the proposal. The call returns whether there was a transition.
  abbrev pub decided :
      Result Text Bool
      → (Bool → Result Text Bool × ProposalLifecycle J)
      → ProposalLifecycle J
      → Result Text Bool × ProposalLifecycle J
  decided (ok passed) f p = f passed
  decided (err e) f p = (err e, p)

  -- What the proposal's logic does after the transition only changes the machine.
  unfoldable pub transition_to_executed :
      Result Text Bool → ℕ → ProposalLifecycle J → Result Text Bool × ProposalLifecycle J
  transition_to_executed verdict now p =
      if is_voting p.state
      then decided verdict (λ b. if b then (ok true, enter now executed p) else (ok false, p)) p
      else (ok false, p)

  unfoldable pub transition_to_rejected :
      Result Text Bool → ℕ → ProposalLifecycle J → Result Text Bool × ProposalLifecycle J
  transition_to_rejected verdict now p =
      if is_voting p.state
      then decided verdict (λ b. if b then (ok false, p) else (ok true, enter now rejected p)) p
      else (ok false, p)

  unfoldable pub transition_to_expired :
      Result Text Bool → ℕ → ℕ → ProposalLifecycle J → Result Text Bool × ProposalLifecycle J
  transition_to_expired verdict now recorded p =
      if is_voting p.state && is_past p.expires_at now
      then decided verdict (λ b. (ok true, enter recorded expired p)) p
      else (ok false, p)

-- a call on a proposal, with its readings of the clock
pub data Call : Type 0 where
  opens : ℕ → Call
  starts_voting : (now now' recorded duration : ℕ) → Call
  executes : (now recorded : ℕ) → Call
  rejects : ℕ → Call
  expires : (now recorded : ℕ) → Call
  checks_expiry : (now recorded : ℕ) → Call
  updates : ℕ → Call
  to_executed : (verdict : Result Text Bool) (now : ℕ) → Call
  to_rejected : (verdict : Result Text Bool) (now : ℕ) → Call
  to_expired : (verdict : Result Text Bool) (now recorded : ℕ) → Call

unfoldable pub perform : {J : Type 0} → Call → ProposalLifecycle J → ProposalLifecycle J
unfolding open_for_feedback start_voting execute reject expire check_expiry update_version
    transition_to_executed transition_to_rejected transition_to_expired
perform (opens now) p = open_for_feedback now p
perform (starts_voting now now' recorded duration) p = start_voting now now' recorded duration p
perform (executes now recorded) p = execute now recorded p
perform (rejects now) p = reject now p
perform (expires now recorded) p = expire now recorded p
perform (checks_expiry now recorded) p = (check_expiry now recorded p).1
perform (updates now) p = update_version now p
perform (to_executed verdict now) p = (transition_to_executed verdict now p).1
perform (to_rejected verdict now) p = (transition_to_rejected verdict now p).1
perform (to_expired verdict now recorded) p = (transition_to_expired verdict now recorded p).1

unfoldable pub perform_all : {J : Type 0} → List Call → ProposalLifecycle J → ProposalLifecycle J
perform_all [] p = p
perform_all (c ∷ cs) p = perform_all cs (perform c p)
