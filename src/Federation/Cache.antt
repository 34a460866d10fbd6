-- ===== src/Federation/Cache.antt =====
-- federation/storage.rs, `save_vote`: what the cache holds, and who may vote.
use icn_covm.Prelude.{
  ◌≡◌, refl, sym, ◌∙◌, eq_of_==, true, false, ◌||◌, Option, List, [], ◌∷◌, ◌++◌, Text, ◌==◌, ==_iff,
  ==-refl, text, lookup, lookup-insert, member, map, Bool-cases, ◌⊎◌, inl, inr, arith,
}
use icn_covm.Prelude.Actions.{ok, err, Result-cases}
use icn_covm.Storage.Types.{StorageError, other}
use icn_covm.Storage.Identity.{Identity}
use icn_covm.Ledger.Exports.{Distinct}
use icn_covm.Federation.{
  FederatedVote, FederatedProposal, ProposalScope, single_coop, multi_coop, global_federation,
  belongs_to, is_open,
}
use icn_covm.Federation.Votes.{
  FederationCache, FederationBackend, Federation, or_nil, put_vote, cache_vote, save_vote,
  get_proposal, voter_of, check_signature, check_scope, store_vote, stored_votes, make_votes_key,
  votes_namespace, belongs_to_any,
}

module _ {F : Type 0} where
  abbrev pub voters : List (FederatedVote F) → List Text
  voters votes = map (λ v. v.voter) votes

  -- no voter has two votes on a proposal
  unfoldable pub OneVoteEach : FederationCache F → Type 0
  OneVoteEach cache = (id : Text) → Distinct (voters (or_nil (lookup id cache.votes)))

  member-put_vote :
      (x : Text) (vote : FederatedVote F) (votes : List (FederatedVote F))
      → member x (voters (put_vote vote votes)) ≡ (vote.voter == x || member x (voters votes))
  unfolding put_vote member
  member-put_vote x vote [] = refl
  member-put_vote x vote (v ∷ votes) =
      ground (arith, member-put_vote x vote votes, ==_iff v.voter vote.voter)

  put_vote-Distinct :
      (vote : FederatedVote F) (votes : List (FederatedVote F))
      → Distinct (voters votes)
      → Distinct (voters (put_vote vote votes))
  unfolding put_vote member
  put_vote-Distinct vote [] d = (refl, tt)
  put_vote-Distinct vote (v ∷ votes) (fresh, d) = elim (Bool-cases (v.voter == vote.voter)) [
    | inl e ↦ rw (e) (rw (sym (eq_of_== _ _ e)) fresh, d)
    | inr e ↦
        let other : (vote.voter == v.voter) ≡ false =
          ground (arith, e, ==_iff v.voter vote.voter, ==_iff vote.voter v.voter) in
        rw (e)
          (member-put_vote v.voter vote votes ∙ rw (other) fresh, put_vote-Distinct vote votes d)
  ]

  cache_vote-OneVoteEach :
      (vote : FederatedVote F) (cache : FederationCache F)
      → OneVoteEach cache
      → OneVoteEach (cache_vote vote cache)
  unfolding cache_vote OneVoteEach
  cache_vote-OneVoteEach vote cache each id = elim (Bool-cases (vote.proposal_id == id)) [
    | inl e ↦ rw (lookup-insert, e) (put_vote-Distinct vote _ (each vote.proposal_id))
    | inr e ↦ rw (lookup-insert, e) (each id)
  ]

module _ {F J : Type 0} (as_str : J → Option Text) (B : FederationBackend F J) where
  open B use {S}

  -- membership in one of the cooperatives that a proposal names
  pub MayVote : ProposalScope → Identity J → Type 0
  MayVote (single_coop coop) identity = belongs_to as_str coop identity ≡ true
  MayVote (multi_coop coops) identity =
      (coop : Text) × (member coop coops ≡ true) × (belongs_to as_str coop identity ≡ true)
  MayVote global_federation identity = Unit

  belongs_to_any-member :
      (coops : List Text) (identity : Identity J)
      → belongs_to_any as_str B coops identity ≡ true
      → (coop : Text) × (member coop coops ≡ true) × (belongs_to as_str coop identity ≡ true)
  unfolding member
  belongs_to_any-member [] identity h = absurd (cc)
  belongs_to_any-member (coop ∷ coops) identity h =
      elim (Bool-cases (belongs_to as_str coop identity)) [
        | inl e ↦ (coop, rw (==-refl coop) refl, e)
        | inr e ↦
            let (c, m, b) = belongs_to_any-member coops identity ((rw (e) at h)) in
            (c, ground (arith, m), b)
      ]

  check_scope-MayVote :
      (scope : ProposalScope) (identity : Identity J)
      → check_scope as_str B scope identity ≡ ok tt
      → MayVote scope identity
  unfolding check_scope MayVote
  check_scope-MayVote (single_coop coop) identity h =
      elim (Bool-cases (belongs_to as_str coop identity)) [
        | inl e ↦ e
        | inr e ↦ absurd (let q = (rw (e) at h) in cc)
      ]
  check_scope-MayVote (multi_coop coops) identity h =
      elim (Bool-cases (belongs_to_any as_str B coops identity)) [
        | inl e ↦ belongs_to_any-member coops identity e
        | inr e ↦ absurd (let q = (rw (e) at h) in cc)
      ]
  check_scope-MayVote global_federation identity h = tt

  -- a call that stops early changes nothing, and one that does not has passed every check
  save_vote-cases :
      (vote : FederatedVote F) (voter_identity : Option (Identity J)) (s : Federation F S)
      → ((e : StorageError) × (save_vote as_str B vote voter_identity s ≡ (err e, s)))
        ⊎ ((p : FederatedProposal) × (identity : Identity J) × (get_proposal as_str B
                vote.proposal_id s
              ≡ ok p)
            × (is_open p.status ≡ true)
            × (voter_of as_str B vote voter_identity s ≡ ok identity)
            × (check_signature as_str B vote identity ≡ ok tt)
            × (check_scope as_str B p.scope identity ≡ ok tt)
            × (save_vote as_str B vote voter_identity s ≡ store_vote as_str B vote s))
  unfolding save_vote
  save_vote-cases vote voter_identity s =
      elim (Result-cases (get_proposal as_str B vote.proposal_id s)) [
        | inl (e, c) ↦ inl (e, rw (c) refl)
        | inr (p, c) ↦ elim (Bool-cases (is_open p.status)) [
          | inr d ↦ inl (
            other (text "Proposal " ++ (vote.proposal_id ++ text " is not open for voting")),
            rw (c, d) refl,
          )
          | inl d ↦ elim (Result-cases (voter_of as_str B vote voter_identity s)) [
            | inl (e, i) ↦ inl (e, rw (c, d, i) refl)
            | inr (identity, i) ↦ elim (Result-cases (check_signature as_str B vote identity)) [
              | inl (e, g) ↦ inl (e, rw (c, d, i, g) refl)
              | inr (u, g) ↦ elim (Result-cases (check_scope as_str B p.scope identity)) [
                | inl (e, h) ↦ inl (e, rw (c, d, i, g, h) refl)
                | inr (w, h) ↦ inr (p, identity, c, d, i, g, h, rw (c, d, i, g, h) refl)
              ]
            ]
          ]
        ]
      ]

  store_vote-OneVoteEach :
      (vote : FederatedVote F) (s : Federation F S)
      → OneVoteEach s.cache
      → OneVoteEach (store_vote as_str B vote s).1.cache
  store_vote-OneVoteEach vote s each = elim (Result-cases (stored_votes as_str B vote s)) [
    | inl (e, c) ↦ rw (c) each
    | inr (votes, c) ↦
        elim (Result-cases
          (B.set_votes_json votes_namespace (make_votes_key vote.proposal_id) (votes ++ vote ∷ [])
            s.storage).0) [
              | inl (e, k) ↦ rw (c, k) each
              | inr (u, k) ↦ rw (c, k) (cache_vote-OneVoteEach vote s.cache each)
            ]
  ]

  -- Whatever comes of a call of `save_vote`, the cache holds at most one vote of each voter on each
  -- proposal after it if it did before.
  pub save_vote-OneVoteEach :
      (vote : FederatedVote F) (voter_identity : Option (Identity J)) (s : Federation F S)
      → OneVoteEach s.cache
      → OneVoteEach (save_vote as_str B vote voter_identity s).1.cache
  save_vote-OneVoteEach vote voter_identity s each = elim (save_vote-cases vote voter_identity s) [
    | inl (e, c) ↦ rw (c) each
    | inr (p, identity, _, _, _, _, _, c) ↦ rw (c) (store_vote-OneVoteEach vote s each)
  ]

  -- A vote is saved only on a proposal that is open, and only if the identity given with it, or else
  -- the one stored for the voter, passes the check of its signature and is a member of a cooperative
  -- that the scope of the proposal names, unless the scope is the whole federation.
  pub save_vote-MayVote :
      (vote : FederatedVote F) (voter_identity : Option (Identity J)) (s : Federation F S)
      → (save_vote as_str B vote voter_identity s).0 ≡ ok tt
      → (p : FederatedProposal) × (identity : Identity J) × (get_proposal as_str B vote.proposal_id
            s
          ≡ ok p)
        × (is_open p.status ≡ true)
        × (voter_of as_str B vote voter_identity s ≡ ok identity)
        × (check_signature as_str B vote identity ≡ ok tt)
        × MayVote p.scope identity
  save_vote-MayVote vote voter_identity s h = elim (save_vote-cases vote voter_identity s) [
    | inl (e, c) ↦ absurd (let q = (rw (c) at h) in cc)
    | inr (p, identity, c, d, i, g, m, _) ↦
        (p, identity, c, d, i, g, check_scope-MayVote p.scope identity m)
  ]
