-- ===== src/Governance/ProposalLifecycle/Voting.antt =====
-- ProposalLifecycle: when voting ends, and the threshold of a proposal made from the old settings.
use icn_covm.Prelude.{
  ℕ, ◌+◌, ◌*◌, ◌≤◌, ◌≡◌, ◌≢◌, refl, Bool, true, false, not, ◌&&◌, Option, some, Text, ltb, ◌⊎◌, inl,
  inr, Bool-cases, arith,
}
use icn_covm.Storage.Identity.{Identity}
use icn_covm.Governance.ProposalLifecycle.{
  open_feedback, voting, executed, ProposalLifecycle, is_voting, is_early, start_voting, execute,
  new_backwards_compatible,
}
use icn_covm.Governance.ProposalLifecycle.Moves.{is_voting_lem}

over :
    (allowed : Bool) (e now : ℕ)
    → (not allowed && is_early (some e) now) ≡ false
    → (allowed ≡ true) ⊎ (e ≤ now)
over true e now h = inl refl
over false e now h = inr (ground arith)

module _ {J : Type 0} where
  -- Voting that starts at `now` lasts at least the minimum voting period that the proposal asks for,
  -- and at least the given duration, however short that is; the second reading of the clock is not
  -- before the first.
  pub start_voting-period :
      (now now' recorded duration period : ℕ) (p : ProposalLifecycle J)
      → p.state ≡ open_feedback
      → p.min_voting_period ≡ some period
      → now ≤ now'
      → (e : ℕ) × ((start_voting now now' recorded duration p).expires_at ≡ some e)
        × (now + period ≤ e)
        × (now + duration ≤ e)
  unfolding start_voting
  start_voting-period now now' recorded duration period p opened least later =
      elim (Bool-cases (ltb duration period)) [
        | inl short ↦ (now' + period, rw (opened, least, short) refl, omega arith, ground arith)
        | inr long ↦ (now + duration, rw (opened, least, long) refl, ground arith, omega arith)
      ]

  -- A call of `execute` that makes a proposal with an expiration executed found it in voting, and
  -- either early execution is allowed or the expiration was reached.
  pub execute-late :
      (now recorded e : ℕ) (p : ProposalLifecycle J)
      → p.state ≢ executed
      → p.expires_at ≡ some e
      → (execute now recorded p).state ≡ executed
      → (p.state ≡ voting) × ((p.allow_early_execution ≡ true) ⊎ (e ≤ now))
  unfolding execute
  execute-late now recorded e p before ends h = elim (Bool-cases (is_voting p.state)) [
    | inr other ↦ absurd (before (rw other at h))
    | inl open_vote ↦ elim (Bool-cases (not p.allow_early_execution && is_early p.expires_at now)) [
      | inl early ↦ absurd (before (rw (open_vote, early) at h))
      | inr late ↦
          (is_voting_lem p.state open_vote, over p.allow_early_execution e now (rw ends at late))
    ]
  ]

  -- A proposal made from the old settings with threshold 256 * k + r, for r up to 100, has the
  -- approval threshold r: a threshold up to 100 is kept, and one above 255 wraps around.
  pub threshold_wraps :
      (now : ℕ) (id : Text) (creator : Identity J) (title : Text) (quorum k r : ℕ)
      (discussion participants : Option ℕ)
      → r ≤ 100
      → (new_backwards_compatible now id creator title quorum
          (256 * k + r)
          discussion
          participants).approval_threshold
        ≡ r
  unfolding new_backwards_compatible
  threshold_wraps now id creator title quorum k r discussion participants h = omega arith
