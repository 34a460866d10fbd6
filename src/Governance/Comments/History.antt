-- ===== src/Governance/Comments/History.antt =====
-- Comments: what an edit adds to the history, and who may edit.
use icn_covm.Prelude.{
  ℕ, ◌-◌, ◌≡◌, refl, ap, ◌∙◌, false, some, List, [], ◌∷◌, ◌++◌, Text, text, ◌==◌, eq_of_==, ==-refl,
  append_cancel, length, length-append, Bool-cases, inl, inr, arith,
}
use icn_covm.Prelude.Decimal.{print}
use icn_covm.Prelude.Actions.{ok, err, Result-cases}
use icn_covm.Storage.Types.{StorageResult}
use icn_covm.Storage.Auth.{AuthContext}
use icn_covm.Storage.InMemory.{InMemoryStorage, Times}
use icn_covm.Economic.InMemoryBackend.{get-set_here}
use icn_covm.Governance.Comments.InMemory.{in_memory_comments}
use icn_covm.Governance.Comments.{
  CommentVersion, ProposalComment, version_of, add_version, CommentJson, CommentStore, governance,
  proposal_path, comment_path, version_path, boxed, get_json, last_version, save_edit,
  edit_on_clone, edit_comment, get_comment_history,
}

boxed-ok : {A : Type 0} (r : StorageResult A) (a : A) → boxed r ≡ ok a → r ≡ ok a
boxed-ok (ok b) a e = cc
boxed-ok (err b) a e = cc

longer :
    (id rest : Text) → (text "/comments/versions/" ++ (id ++ rest)) ≡ (text "/comments/" ++ id) → ⊥
unfolding text
longer id rest e =
    let n = length-append (text "/comments/versions/") (id ++ rest) in
    let m = length-append (text "/comments/") id in
    let k = length-append id rest in
    let l = ap length e in
    let a : length (text "/comments/versions/") ≡ 19 = refl in
    let b : length (text "/comments/") ≡ 10 = refl in omega arith

-- the path of a version is longer than that of the comment
paths_differ :
    (proposal id : Text) (n : ℕ) → (version_path proposal id n == comment_path proposal id) ≡ false
unfolding text
paths_differ proposal id n =
    elim (Bool-cases (version_path proposal id n == comment_path proposal id)) [
      | inr e ↦ e
      | inl e ↦ absurd (
          longer id (text "/" ++ print n)
            (append_cancel (proposal_path proposal) _ _ (eq_of_== _ _ e)))
    ]

module _ {B J : Type 0} (json_of : CommentJson B) (C : CommentStore B J) (proposal id : Text)
    (auth : AuthContext J) where
  open C use {S}

  -- an edit that succeeded read a comment of the caller and saved it with one version more
  edit_inversion :
      (now : ℕ) (content : Text) (s : S)
      → (edit_comment json_of C proposal id now content auth (some s)).0 ≡ ok tt
      → (c : ProposalComment) × (get_json json_of C (some auth) (comment_path proposal id) s ≡ ok c)
        × (c.author ≡ auth.current_identity_did)
        × ((save_edit json_of C proposal id auth (add_version now content c) s).0 ≡ ok tt)
        × ((edit_on_clone json_of C proposal id now content auth s).1
            ≡ (save_edit json_of C proposal id auth (add_version now content c) s).1)
  unfolding edit_comment edit_on_clone
  edit_inversion now content s h =
      elim (Result-cases (get_json json_of C (some auth) (comment_path proposal id) s)) [
        | inl (e, p) ↦ absurd (let q = (rw (p) at h) in cc)
        | inr (c, p) ↦ elim (Bool-cases (c.author == auth.current_identity_did)) [
          | inr d ↦ absurd (let q = (rw (p, d) at h) in cc)
          | inl d ↦ (c, p, eq_of_== _ _ d, (rw (p, d) at h), rw (p, d) refl)
        ]
      ]

  -- Where an edit succeeds, on any storage, the comment was found and its author is the caller.
  pub edit_comment-author :
      (now : ℕ) (content : Text) (s : S)
      → (edit_comment json_of C proposal id now content auth (some s)).0 ≡ ok tt
      → (c : ProposalComment) × (get_json json_of C (some auth) (comment_path proposal id) s ≡ ok c)
        × (c.author ≡ auth.current_identity_did)
  edit_comment-author now content s h =
      let (c, p, d, _, _) = edit_inversion now content s h in (c, p, d)

module _ {J : Type 0} (json_of : CommentJson (List ℕ)) (times : Text → Times)
    (reads : (c : ProposalComment) → json_of.from_json (json_of.to_json c) ≡ some c)
    (proposal id : Text) (auth : AuthContext J) where
  abbrev C : CommentStore (List ℕ) J
  C = in_memory_comments times

  abbrev S : Type 0
  S = InMemoryStorage

  abbrev path : Text
  path = comment_path proposal id

  read_back :
      (c : ProposalComment) (s : S)
      → (C.set (some auth) governance path (json_of.to_json c) s).0 ≡ ok tt
      → get_json json_of C
          (some auth)
          path
          (C.set (some auth) governance path (json_of.to_json c) s).1
        ≡ ok c
  unfolding get_json
  read_back c s w =
      rw
        (
          get-set_here auth governance (times path) path (json_of.to_json c) s path w,
          ==-refl path,
          reads c,
        )
        refl

  read_other :
      (b : List ℕ) (n : ℕ) (s : S)
      → (C.set (some auth) governance (version_path proposal id n) b s).0 ≡ ok tt
      → get_json json_of C
          (some auth)
          path
          (C.set (some auth) governance (version_path proposal id n) b s).1
        ≡ get_json json_of C (some auth) path s
  unfolding get_json
  read_other b n s w =
      rw
        (
          get-set_here auth governance (times (version_path proposal id n))
              (version_path proposal id n) b s path w,
          paths_differ proposal id n,
        )
        refl

  -- a comment that was saved is read again
  saved :
      (c : ProposalComment) (s : S)
      → (save_edit json_of C proposal id auth c s).0 ≡ ok tt
      → get_json json_of C (some auth) path (save_edit json_of C proposal id auth c s).1 ≡ ok c
  saved c s h =
      let doc = json_of.to_json c in
      elim (Result-cases (C.set (some auth) governance path doc s).0) [
        | inl (e, p) ↦ absurd (let q = (rw (p) at h) in cc)
        | inr (u, p) ↦ elim (Result-cases (last_version json_of C c.edit_history)) [
          | inl (e, p') ↦ absurd (let q = (rw (p, p') at h) in cc)
          | inr (v, p') ↦
              let n = length c.edit_history - 1 in
              let w = boxed-ok _ tt ((rw (p, p') at h)) in
              rw (p, p')
                (read_other (json_of.version_to_json v) n
                    (C.set (some auth) governance path doc s).1 w
                  ∙ read_back c s p)
        ]
      ]

  -- On the in-memory storage an edit that succeeds is lost. In the clone that it writes to, the
  -- history of the comment is the one from before, in order, with one version more, of the new content
  -- and the time of the edit; in the storage that the machine keeps it is the one from before. It is
  -- assumed that a comment is parsed from its JSON form.
  pub get_comment_history-edit_comment :
      (now : ℕ) (content : Text) (s : InMemoryStorage) (history : List CommentVersion)
      → get_comment_history json_of C proposal id (some auth) (some s) ≡ ok history
      → (edit_comment json_of C proposal id now content auth (some s)).0 ≡ ok tt
      → (get_comment_history json_of C proposal id
            (some auth)
            (some (edit_on_clone json_of C proposal id now content auth s).1)
          ≡ ok (history ++ version_of content now ∷ []))
        × (get_comment_history json_of C proposal id
              (some auth)
              (edit_comment json_of C proposal id now content auth (some s)).1
            ≡ ok history)
  unfolding get_comment_history add_version edit_comment
  get_comment_history-edit_comment now content s history g h =
      let (c, p, d, w, after) = edit_inversion json_of C proposal id auth now content s h in
      let same : c.edit_history ≡ history = (let q = (rw (p) at g) in cc) in
      (rw (after, saved (add_version now content c) s w, same) refl, g)
