-- ===== src/Governance/ProposalLifecycle/Moves.antt =====
-- ProposalLifecycle: the states that a proposal goes through, and its history of them.
use icn_covm.Prelude.{
  ℕ, ◌≡◌, refl, sym, ◌∙◌, Bool, true, false, not, ◌&&◌, List, [], ◌∷◌, ◌++◌, Text, if◌then◌else◌,
  ◌⊎◌, inl, inr, Bool-cases, arith,
}
use icn_covm.Prelude.Actions.{Result, ok, err}
use icn_covm.Governance.ProposalLifecycle.{
  ProposalState, draft, open_feedback, voting, executed, rejected, expired, ProposalLifecycle,
  is_draft, is_open, is_voting, is_early, is_past, Call, opens, starts_voting, executes, rejects,
  expires, checks_expiry, updates, to_executed, to_rejected, to_expired, decided, enter, perform,
  perform_all,
}

-- the moves from a state to the next
pub data Next : ProposalState → ProposalState → Type 0 where
  opened : Next draft open_feedback
  vote_started : Next open_feedback voting
  passed : Next voting executed
  failed : Next voting rejected
  timed_out : Next voting expired

abbrev pub Moved : ProposalState → ProposalState → Type 0
Moved s t = (s ≡ t) ⊎ Next s t

-- The history of the states from `s` on ends in `t`, and each state is the one before it or a move
-- from it.
abbrev pub Trail : ProposalState → List (ℕ × ProposalState) → ProposalState → Type 0
Trail s [] t = s ≡ t
Trail s (entry ∷ history) t = Moved s entry.1 × Trail entry.1 history t

Trail-append :
    (s t u : ProposalState) (history : List (ℕ × ProposalState)) (now : ℕ)
    → Trail s history t
    → Moved t u
    → Trail s (history ++ (now, u) ∷ []) u
Trail-append s t u [] now h m = (rw h m, refl)
Trail-append s t u (entry ∷ history) now (first, h) m =
    (first, Trail-append entry.1 t u history now h m)

is_draft_lem : (s : ProposalState) → is_draft s ≡ true → s ≡ draft
is_draft_lem draft h = refl
is_draft_lem open_feedback h = cc
is_draft_lem voting h = cc
is_draft_lem executed h = cc
is_draft_lem rejected h = cc
is_draft_lem expired h = cc

is_open_lem : (s : ProposalState) → is_open s ≡ true → s ≡ open_feedback
is_open_lem draft h = cc
is_open_lem open_feedback h = refl
is_open_lem voting h = cc
is_open_lem executed h = cc
is_open_lem rejected h = cc
is_open_lem expired h = cc

pub is_voting_lem : (s : ProposalState) → is_voting s ≡ true → s ≡ voting
is_voting_lem draft h = cc
is_voting_lem open_feedback h = cc
is_voting_lem voting h = refl
is_voting_lem executed h = cc
is_voting_lem rejected h = cc
is_voting_lem expired h = cc

left_true : (a b : Bool) → (a && b) ≡ true → a ≡ true
left_true true b h = refl
left_true false b h = h

abbrev pub IsFinal : ProposalState → Type 0
IsFinal draft = ⊥
IsFinal open_feedback = ⊥
IsFinal voting = ⊥
IsFinal executed = Unit
IsFinal rejected = Unit
IsFinal expired = Unit

no_move : (s t : ProposalState) → IsFinal s → Next s t → ⊥
no_move s t h opened = h
no_move s t h vote_started = h
no_move s t h passed = h
no_move s t h failed = h
no_move s t h timed_out = h

module _ {J : Type 0} where
  -- What a call does: nothing to state and history, or one move (or none) that it records.
  abbrev Effect : ProposalLifecycle J → ProposalLifecycle J → Type 0
  Effect p p' =
      ((p'.state ≡ p.state) × (p'.history ≡ p.history))
      ⊎ ((now : ℕ) × (p'.history ≡ p.history ++ (now, p'.state) ∷ []) × Moved p.state p'.state)

  Effect-final : (p p' : ProposalLifecycle J) → IsFinal p.state → Effect p p' → p'.state ≡ p.state
  Effect-final p p' h (inl (state, _)) = state
  Effect-final p p' h (inr (now, history, inl same)) = sym same
  Effect-final p p' h (inr (now, history, inr move)) = absurd (no_move p.state p'.state h move)

  -- a guarded move
  entered-Effect :
      (b : Bool) (p p' : ProposalLifecycle J) (now : ℕ)
      → p'.history ≡ p.history ++ (now, p'.state) ∷ []
      → (b ≡ true → Next p.state p'.state)
      → Effect p (if b then p' else p)
  entered-Effect true p p' now h m = inr (now, h, inr (m refl))
  entered-Effect false p p' now h m = inl (refl, refl)

  -- the transitions of a proposal in vote
  executed-Effect :
      (verdict : Result Text Bool) (now : ℕ) (p : ProposalLifecycle J)
      → is_voting p.state ≡ true
      → Effect p
          (decided verdict (λ b. if b then (ok true, enter now executed p) else (ok false, p)) p).1
  executed-Effect (err e) now p h = inl (refl, refl)
  executed-Effect (ok false) now p h = inl (refl, refl)
  executed-Effect (ok true) now p h = inr (now, refl, inr (rw (is_voting_lem p.state h) passed))

  rejected-Effect :
      (verdict : Result Text Bool) (now : ℕ) (p : ProposalLifecycle J)
      → is_voting p.state ≡ true
      → Effect p
          (decided verdict (λ b. if b then (ok false, p) else (ok true, enter now rejected p)) p).1
  rejected-Effect (err e) now p h = inl (refl, refl)
  rejected-Effect (ok true) now p h = inl (refl, refl)
  rejected-Effect (ok false) now p h = inr (now, refl, inr (rw (is_voting_lem p.state h) failed))

  expired-Effect :
      (verdict : Result Text Bool) (now : ℕ) (p : ProposalLifecycle J)
      → is_voting p.state ≡ true
      → Effect p (decided verdict (λ b. (ok true, enter now expired p)) p).1
  expired-Effect (err e) now p h = inl (refl, refl)
  expired-Effect (ok b) now p h = inr (now, refl, inr (rw (is_voting_lem p.state h) timed_out))

  perform-Effect : (c : Call) (p : ProposalLifecycle J) → Effect p (perform c p)
  unfolding perform
  perform-Effect (opens now) p =
      entered-Effect (is_draft p.state) p _ now refl (λ e. rw (is_draft_lem p.state e) opened)
  perform-Effect (starts_voting now now' recorded duration) p =
      entered-Effect (is_open p.state) p _ recorded refl
        (λ e. rw (is_open_lem p.state e) vote_started)
  perform-Effect (executes now recorded) p =
      elim (Bool-cases (not p.allow_early_execution && is_early p.expires_at now)) [
        | inl early ↦ rw early (inl (ground arith, ground arith))
        | inr late ↦ rw late (
            entered-Effect (is_voting p.state) p _ recorded refl
              (λ e. rw (is_voting_lem p.state e) passed))
      ]
  perform-Effect (rejects now) p =
      entered-Effect (is_voting p.state) p _ now refl (λ e. rw (is_voting_lem p.state e) failed)
  perform-Effect (expires now recorded) p =
      entered-Effect (is_voting p.state && is_past p.expires_at now) p _ recorded refl
        (λ e. rw (is_voting_lem p.state (left_true _ _ e)) timed_out)
  perform-Effect (checks_expiry now recorded) p =
      elim (Bool-cases (is_voting p.state && is_past p.expires_at now)) [
        | inl past ↦
            rw (perform, past)
              (inr
                (recorded, refl, inr (rw (is_voting_lem p.state (left_true _ _ past)) timed_out)))
        | inr not_past ↦ rw (perform, not_past) (inl (refl, refl))
      ]
  perform-Effect (updates now) p = inr (now, refl, inl refl)
  perform-Effect (to_executed verdict now) p = elim (Bool-cases (is_voting p.state)) [
    | inr other ↦ rw (perform, other) (inl (refl, refl))
    | inl in_vote ↦ rw (perform, in_vote) (executed-Effect verdict now p in_vote)
  ]
  perform-Effect (to_rejected verdict now) p = elim (Bool-cases (is_voting p.state)) [
    | inr other ↦ rw (perform, other) (inl (refl, refl))
    | inl in_vote ↦ rw (perform, in_vote) (rejected-Effect verdict now p in_vote)
  ]
  perform-Effect (to_expired verdict now recorded) p =
      elim (Bool-cases (is_voting p.state && is_past p.expires_at now)) [
        | inr not_past ↦ rw (perform, not_past) (inl (refl, refl))
        | inl past ↦ rw (perform, past) (expired-Effect verdict recorded p (left_true _ _ past))
      ]

  Effect-Trail :
      (p p' : ProposalLifecycle J)
      → Effect p p'
      → Trail draft p.history p.state
      → Trail draft p'.history p'.state
  Effect-Trail p p' (inl (state, history)) h = rw (state, history) h
  Effect-Trail p p' (inr (now, history, moved)) h =
      rw history (Trail-append draft p.state p'.state p.history now h moved)

  -- Let `open_for_feedback`, `start_voting`, `execute`, `reject`, `expire`, `check_expiry`,
  -- `update_version`, `transition_to_executed`, `transition_to_rejected` and `transition_to_expired`
  -- be called in any order, at any times and whatever the votes come to, on a proposal whose history
  -- is a trail of single moves from draft to its state: it is so afterwards.
  pub perform_all-Trail :
      (calls : List Call) (p : ProposalLifecycle J)
      → Trail draft p.history p.state
      → Trail draft (perform_all calls p).history (perform_all calls p).state
  unfolding perform_all
  perform_all-Trail [] p h = h
  perform_all-Trail (c ∷ calls) p h =
      perform_all-Trail calls (perform c p) (Effect-Trail p (perform c p) (perform-Effect c p) h)

  -- A proposal that is executed, rejected or expired never leaves that state by these calls.
  pub perform_all-final :
      (calls : List Call) (p : ProposalLifecycle J)
      → IsFinal p.state
      → (perform_all calls p).state ≡ p.state
  unfolding perform_all
  perform_all-final [] p h = refl
  perform_all-final (c ∷ calls) p h =
      let stays = Effect-final p (perform c p) h (perform-Effect c p) in
      perform_all-final calls (perform c p) (rw stays h) ∙ stays
