-- ===== src/Governance/Comments.antt =====
-- governance/comments.rs: comments on a proposal. Times, identifiers and JSON are parameters; `B` is
-- the type of the stored documents.
pub mod InMemory
pub mod History
pub mod Codec
pub mod Tests
use icn_covm.Prelude.{
  ℕ, ◌+◌, ◌-◌, ◌%◌, ◌^◌, Bool, true, false, not, ◌||◌, Option, none, some, List, [], ◌∷◌, ◌++◌,
  Text, text, ◌==◌, Dict, lookup, insert, member, length, get_elem?, if◌then◌else◌,
}
use icn_covm.Prelude.Decimal.{print}
use icn_covm.Prelude.Actions.{
  Result, ok, err, Action, pure, query, fail_if, ok_or, then_do, ◌>>=◌, ◌>>◌,
}
use icn_covm.Storage.Types.{StorageError, StorageResult, serialization_error}
use icn_covm.Storage.Auth.{AuthContext}

pub record CommentVersion : Type 0 where
  pub content : Text
  pub timestamp : ℕ

pub record ProposalComment : Type 0 where
  pub id : Text
  pub author : Text
  pub timestamp : ℕ
  pub content : Text
  pub reply_to : Option Text
  pub tags : List Text
  pub reactions : Dict ℕ
  pub hidden : Bool
  pub edit_history : List CommentVersion

-- the format without `hidden` and `edit_history`
pub record LegacyComment : Type 0 where
  pub id : Text
  pub author : Text
  pub timestamp : ℕ
  pub content : Text
  pub reply_to : Option Text
  pub tags : List Text
  pub reactions : Dict ℕ

abbrev pub version_of : Text → ℕ → CommentVersion
version_of content now = record { content = content; timestamp = now }

unfoldable pub new : Text → ℕ → (author content : Text) → Option Text → List Text → ProposalComment
new id now author content reply_to tags = record {
  id = id;
  author = author;
  timestamp = now;
  content = content;
  reply_to = reply_to;
  tags = tags;
  reactions = [];
  hidden = false;
  edit_history = version_of content now ∷ [];
}

unfoldable pub add_version : ℕ → Text → ProposalComment → ProposalComment
add_version now content c = record c {
  content = content;
  edit_history = c.edit_history ++ version_of content now ∷ [];
}

abbrev pub hide : ProposalComment → ProposalComment
hide c = record c { hidden = true }

abbrev pub unhide : ProposalComment → ProposalComment
unhide c = record c { hidden = false }

abbrev or_zero : Option ℕ → ℕ
or_zero none = 0
or_zero (some n) = n

unfoldable pub add_reaction : Text → ProposalComment → ProposalComment
add_reaction reaction c = record c {
  reactions = insert reaction ((or_zero (lookup reaction c.reactions) + 1) % 2 ^ 32) c.reactions;
}

abbrev pub with_tags : List Text → List Text → List Text
with_tags [] tags = tags
with_tags (tag ∷ new_tags) tags =
    with_tags new_tags (if member tag tags then tags else tags ++ tag ∷ [])

unfoldable pub add_tags : List Text → ProposalComment → ProposalComment
add_tags new_tags c = record c { tags = with_tags new_tags c.tags }

unfoldable pub migrated : LegacyComment → ProposalComment
migrated c = record {
  id = c.id;
  author = c.author;
  timestamp = c.timestamp;
  content = c.content;
  reply_to = c.reply_to;
  tags = c.tags;
  reactions = c.reactions;
  hidden = false;
  edit_history = version_of c.content c.timestamp ∷ [];
}

-- What a `Box<dyn Error>` holds here.
pub data CommentError : Type 0 where
  message : Text → CommentError
  storage : StorageError → CommentError
  json : Text → CommentError

abbrev pub boxed : {A : Type 0} → StorageResult A → Result CommentError A
boxed (ok a) = ok a
boxed (err e) = err (storage e)

-- serde_json on comments and versions; a failure has a text
pub record CommentJson (B : Type 0) : Type 0 where
  pub to_json : ProposalComment → B
  pub version_to_json : CommentVersion → B
  pub from_json : B → Option ProposalComment
  pub legacy_from_json : B → Option LegacyComment
  pub json_error : B → Text

-- The storage behind the machine. A clone of a storage is a copy: the one
-- storage of the program that can be cloned is the in-memory storage, which derives it.
pub record CommentStore (B J : Type 0) : Type 1 where
  pub S : Type 0
  pub get : Option (AuthContext J) → (namespace key : Text) → S → StorageResult B
  pub list_keys : Option (AuthContext J) → Text → Option Text → S → StorageResult (List Text)
  pub set : Option (AuthContext J) → (namespace key : Text) → B → Action S StorageError (Unit {0})

abbrev pub governance : Text
governance = text "governance"

abbrev pub proposal_path : Text → Text
proposal_path proposal = text "governance/proposals/" ++ proposal

abbrev pub comment_path : Text → Text → Text
comment_path proposal id = proposal_path proposal ++ (text "/comments/" ++ id)

abbrev pub version_path : Text → Text → ℕ → Text
version_path proposal id n =
    proposal_path proposal ++ (text "/comments/versions/" ++ (id ++ (text "/" ++ print n)))

module _ {B J : Type 0} (json_of : CommentJson B) (C : CommentStore B J) where
  open C use {S}

  abbrev unavailable : CommentError
  unavailable = message (text "Storage backend not available")

  -- a read of the machine's storage
  abbrev pub on_backend :
      {A : Type 0} → (S → Result CommentError A) → Option S → Result CommentError A
  on_backend f none = err unavailable
  on_backend f (some s) = f s

  -- writes on a clone of the machine's storage, which is dropped at the end
  abbrev pub on_clone : {A : Type 0} → Action S CommentError A → Action (Option S) CommentError A
  on_clone m none = (err unavailable, none)
  on_clone m (some s) = ((m s).0, some s)

  unfoldable pub get_json : Option (AuthContext J) → Text → S → Result CommentError ProposalComment
  get_json auth key s = then_do (boxed (C.get auth governance key s)) (λ b.
      ok_or (json_of.from_json b) (
        storage (
          serialization_error (text "JSON")
            (text "Failed to deserialize JSON: " ++ json_of.json_error b))))

  abbrev pub write : Option (AuthContext J) → Text → B → Action S CommentError (Unit {0})
  write auth key b s = let (r, s') = C.set auth governance key b s in (boxed r, s')

  abbrev missing_proposal : {A : Type 0} → Text → StorageResult A → Result CommentError (Unit {0})
  missing_proposal proposal (ok a) = ok tt
  missing_proposal proposal (err e) =
      err (message (text "Proposal " ++ (proposal ++ text " does not exist")))

  abbrev pub check_proposal : Option (AuthContext J) → Text → S → Result CommentError (Unit {0})
  check_proposal auth proposal s =
      missing_proposal proposal (C.get auth governance (proposal_path proposal) s)

  -- one comment more, unless it cannot be read or is hidden
  abbrev pub shown :
      Bool → Result CommentError ProposalComment → Dict ProposalComment → Dict ProposalComment
  shown show_hidden (err e) comments = comments
  shown show_hidden (ok c) comments =
      if not c.hidden || show_hidden then insert c.id c comments else comments

  abbrev pub collect :
      Option (AuthContext J) → Bool → List Text → S → Dict ProposalComment → Dict ProposalComment
  collect auth show_hidden [] s comments = comments
  collect auth show_hidden (key ∷ keys) s comments =
      collect auth show_hidden keys s (shown show_hidden (get_json auth key s) comments)

  unfoldable pub fetch_comments_threaded :
      Text → Option (AuthContext J) → Bool → Option S → Result CommentError (Dict ProposalComment)
  fetch_comments_threaded proposal auth show_hidden = on_backend (λ s.
      then_do (check_proposal auth proposal s) (λ _.
        then_do
          (boxed
            (C.list_keys auth governance (some (proposal_path proposal ++ text "/comments")) s))
          (λ keys. ok (collect auth show_hidden keys s []))))

  unfoldable pub create_comment :
      (proposal id : Text)
      → ℕ
      → (author content : Text) → Option Text
      → List Text
      → AuthContext J
      → Action (Option S) CommentError ProposalComment
  create_comment proposal id now author content reply_to tags auth =
      let c = new id now author content reply_to tags in
      on_clone do
        query (check_proposal (some auth) proposal)
        write (some auth) (comment_path proposal id) (json_of.to_json c)
        pure c

  -- A comment in the old format is converted. The source writes it back to a clone of the machine,
  -- which has no storage.
  abbrev legacy : B → Option ProposalComment → Result CommentError ProposalComment
  legacy b (some c) = ok c
  legacy b none =
      then_do (ok_or (json_of.legacy_from_json b) (json (json_of.json_error b)))
        (λ c. ok (migrated c))

  unfoldable pub get_comment :
      (proposal id : Text) → Option (AuthContext J) → Option S → Result CommentError ProposalComment
  get_comment proposal id auth = on_backend (λ s.
      then_do (boxed (C.get auth governance (comment_path proposal id) s))
        (λ b. legacy b (json_of.from_json b)))

  -- a comment of the caller
  abbrev pub own_comment :
      Text → (proposal id : Text) → AuthContext J → Action S CommentError ProposalComment
  own_comment refused proposal id auth = do
    c ← query (get_json (some auth) (comment_path proposal id))
    fail_if (not (c.author == auth.current_identity_did)) (message refused)
    pure c

  abbrev pub last_version : List CommentVersion → Result CommentError CommentVersion
  last_version history =
      ok_or (get_elem? history (length history - 1))
        (message (text "Comment edit history is empty"))

  -- the comment with its new version, and the version by itself
  abbrev pub save_edit :
      (proposal id : Text) → AuthContext J → ProposalComment → Action S CommentError (Unit {0})
  save_edit proposal id auth c = do
    write (some auth) (comment_path proposal id) (json_of.to_json c)
    version ← query (λ s. last_version c.edit_history)
    write (some auth) (version_path proposal id (length c.edit_history - 1))
        (json_of.version_to_json version)

  -- what `edit_comment` does to the clone
  unfoldable pub edit_on_clone :
      (proposal id : Text) → ℕ → Text → AuthContext J → Action S CommentError (Unit {0})
  edit_on_clone proposal id now new_content auth = do
    c ← own_comment (text "Only the original author can edit a comment") proposal id auth
    save_edit proposal id auth (add_version now new_content c)

  unfoldable pub edit_comment :
      (proposal id : Text) → ℕ → Text → AuthContext J → Action (Option S) CommentError (Unit {0})
  unfolding edit_on_clone
  edit_comment proposal id now new_content auth =
      on_clone (edit_on_clone proposal id now new_content auth)

  unfoldable pub hide_comment :
      (proposal id : Text) → AuthContext J → Action (Option S) CommentError (Unit {0})
  hide_comment proposal id auth = on_clone do
    c ← own_comment (text "Only the original author can hide a comment") proposal id auth
    write (some auth) (comment_path proposal id) (json_of.to_json (hide c))

  unfoldable pub get_comment_history :
      (proposal id : Text)
      → Option (AuthContext J)
      → Option S
      → Result CommentError (List CommentVersion)
  get_comment_history proposal id auth =
      on_backend
        (λ s. then_do (get_json auth (comment_path proposal id) s) (λ c. ok c.edit_history))
