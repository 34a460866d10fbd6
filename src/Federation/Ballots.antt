-- ===== src/Federation/Ballots.antt =====
-- federation/storage.rs: `prepare_ranked_ballots`, and which vote counts where each cooperative has one.
use icn_covm.Prelude.{
  ℕ, suc, ◌<◌, ◌≡◌, refl, ap, ◌∙◌, Bool, true, false, Option, none, some, List, [], ◌∷◌, Text, text,
  ◌==◌, Dict, lookup, insert, lookup-insert, map, Bool-cases, Option-cases, inl, inr, if◌then◌else◌,
  ltb, arith,
}
use icn_covm.Storage.Identity.{Identity}
use icn_covm.Federation.{
  FederatedVote, FederatedProposal, one_member_one_vote, one_coop_one_vote, get_metadata,
}

abbrev or_voter : Option Text → Text → Text
or_voter none voter = voter
or_voter (some coop) voter = coop

abbrev or_else : {A : Type 0} → Option A → Option A → Option A
or_else none b = b
or_else (some a) b = some a

or_else-none : {A : Type 0} (o : Option A) → or_else o none ≡ o
or_else-none none = refl
or_else-none (some a) = refl

module _ {J : Type 0} (as_str : J → Option Text) where
  -- the cooperative of a voter that has an identity
  abbrev pub coop_of : Option (Identity J) → Option Text
  coop_of none = none
  coop_of (some identity) = get_metadata as_str (text "coop_id") identity

module _ {F : Type 0} where
  -- the later of two votes of a cooperative
  abbrev pub newer :
      ℕ
      → FederatedVote F
      → Text
      → Option (FederatedVote F × ℕ)
      → Dict (FederatedVote F × ℕ)
      → Dict (FederatedVote F × ℕ)
  newer i vote coop none votes = insert coop (vote, i) votes
  newer i vote coop (some (v, j)) votes = if ltb j i then insert coop (vote, i) votes else votes

  -- vote number `i`, under its cooperative, or under the voter where no cooperative is known
  abbrev pub place :
      Option Text → ℕ → FederatedVote F → Dict (FederatedVote F × ℕ) → Dict (FederatedVote F × ℕ)
  place none i vote votes = insert vote.voter (vote, i) votes
  place (some coop) i vote votes = newer i vote coop (lookup coop votes) votes

module _ {F J : Type 0} (as_str : J → Option Text) where
  abbrev pub group :
      Dict (Identity J)
      → ℕ
      → List (FederatedVote F)
      → Dict (FederatedVote F × ℕ)
      → Dict (FederatedVote F × ℕ)
  group identities i [] grouped = grouped
  group identities i (vote ∷ votes) grouped =
      group identities (suc i) votes
        (place (coop_of as_str (lookup vote.voter identities)) i vote grouped)

  unfoldable pub prepare_ranked_ballots :
      List (FederatedVote F) → FederatedProposal → Dict (Identity J) → List (List F)
  prepare_ranked_ballots votes proposal identities = elim proposal.voting_model [
    | one_member_one_vote ↦ map (λ v. v.ranked_choices) votes
    | one_coop_one_vote ↦ map (λ e. e.1.0.ranked_choices) (group identities 0 votes [])
  ]

module _ {F J : Type 0} (as_str : J → Option Text) (identities : Dict (Identity J)) where
  -- whom a vote is counted for: the cooperative of the voter, or the voter where none is known
  abbrev pub counted_for : FederatedVote F → Text
  counted_for vote = or_voter (coop_of as_str (lookup vote.voter identities)) vote.voter

  -- the last of the votes that are counted for a name
  abbrev pub latest : Text → List (FederatedVote F) → Option (FederatedVote F)
  latest name [] = none
  latest name (vote ∷ votes) =
      or_else (latest name votes) (if counted_for vote == name then some vote else none)

  abbrev pub vote_of : Option (FederatedVote F × ℕ) → Option (FederatedVote F)
  vote_of none = none
  vote_of (some e) = some e.0

  abbrev index_of : Option (FederatedVote F × ℕ) → ℕ
  index_of none = 0
  index_of (some e) = e.1

  merge :
      (o : Option (FederatedVote F)) (b : Bool) (vote : FederatedVote F) (i : ℕ)
      (p : Option (FederatedVote F × ℕ))
      → or_else o (vote_of (if b then some (vote, i) else p))
        ≡ or_else (or_else o (if b then some vote else none)) (vote_of p)
  merge (some a) b vote i p = refl
  merge none true vote i p = refl
  merge none false vote i p = refl

  -- the positions that a map holds are below `i`
  Below : ℕ → Dict (FederatedVote F × ℕ) → Type 0
  Below i votes =
      (name : Text) (v : FederatedVote F) (j : ℕ) → lookup name votes ≡ some (v, j) → j < i

  place_lem :
      (coop : Option Text) (i : ℕ) (vote : FederatedVote F) (votes : Dict (FederatedVote F × ℕ))
      (name : Text)
      → Below i votes
      → lookup name (place coop i vote votes)
        ≡ (if or_voter coop vote.voter == name then some (vote, i) else lookup name votes)
  unfolding Below
  place_lem none i vote votes name b = lookup-insert vote.voter name (vote, i) votes
  place_lem (some coop) i vote votes name b = elim (Option-cases (lookup coop votes)) [
    | inl c ↦ rw (c) (lookup-insert coop name (vote, i) votes)
    | inr ((w, j), c) ↦
        let older : ltb j i ≡ true = ground (arith, b coop w j c) in
        rw (c, older) (lookup-insert coop name (vote, i) votes)
  ]

  place-Below :
      (coop : Option Text) (i : ℕ) (vote : FederatedVote F) (votes : Dict (FederatedVote F × ℕ))
      → Below i votes
      → Below (suc i) (place coop i vote votes)
  unfolding Below
  place-Below coop i vote votes b name v j e =
      let f = place_lem coop i vote votes name b in
      elim (Bool-cases (or_voter coop vote.voter == name)) [
        | inl k ↦ let same : i ≡ j = ap index_of ((rw (f, k) at e)) in omega arith
        | inr k ↦ let h : j < i = b name v j ((rw (f, k) at e)) in omega arith
      ]

  group_lem :
      (i : ℕ) (votes : List (FederatedVote F)) (grouped : Dict (FederatedVote F × ℕ)) (name : Text)
      → Below i grouped
      → vote_of (lookup name (group as_str identities i votes grouped))
        ≡ or_else (latest name votes) (vote_of (lookup name grouped))
  group_lem i [] grouped name b = refl
  group_lem i (vote ∷ votes) grouped name b =
      let coop = coop_of as_str (lookup vote.voter identities) in
      rw
        (
          group_lem (suc i) votes (place coop i vote grouped) name
              (place-Below coop i vote grouped b),
          place_lem coop i vote grouped name b,
        )
        (merge (latest name votes) (counted_for vote == name) vote i (lookup name grouped))

  -- Where each cooperative has one vote, the vote that the map of ballots holds for a name is the last
  -- of the votes that are counted for it, that is, of those whose voter is known to belong to the
  -- cooperative of that name, or has that name and no cooperative is known.
  pub group-latest :
      (votes : List (FederatedVote F)) (name : Text)
      → vote_of (lookup name (group as_str identities 0 votes [])) ≡ latest name votes
  unfolding lookup Below
  group-latest votes name =
      group_lem 0 votes [] name (λ other v j e. absurd (cc)) ∙ or_else-none (latest name votes)
