-- ===== src/Governance/Comments/Tests.antt =====
-- Comments: the theorems at an in-memory storage with one comment.
use icn_covm.Prelude.{
  ℕ, ◌≡◌, refl, none, some, List, [], ◌∷◌, text, Text, ◌==◌, lookup, insert, lookup_in, insert_in,
  member, add_member,
}
use icn_covm.Prelude.Decimal.{print}
use icn_covm.Prelude.Actions.{ok}
use icn_covm.Storage.Auth.{
  AuthContext, add_role_to_identity, add_role, has_role_for_identity, has_role,
}
use icn_covm.Storage.Auth
use icn_covm.Storage.Resource.{can_store, add_usage, reduce_usage}
use icn_covm.Storage.InMemory.{
  InMemoryStorage, Times, check_permission, account_usage, grow_usage, update_account,
  make_internal_key, set, create_account,
}
use icn_covm.Storage.InMemory
use icn_covm.Storage.InMemory.Reads.{get}
use icn_covm.Governance.Comments.{
  ProposalComment, version_of, new, add_version, CommentStore, governance, comment_path, get_json,
  edit_on_clone, edit_comment, get_comment_history,
}
use icn_covm.Governance.Comments.InMemory.{in_memory_comments}
use icn_covm.Governance.Comments.Codec.{documents, documents_read}
use icn_covm.Governance.Comments.History.{edit_comment-author, get_comment_history-edit_comment}

abbrev times : Text → Times
times key = record { account = 1; version = 2; audit = 3 }

abbrev store : CommentStore (List ℕ) ℕ
store = in_memory_comments times

abbrev al : AuthContext ℕ
al = add_role (text "global") (text "admin") (Auth.new (text "al"))

abbrev first : ProposalComment
first = new (text "c") 5 (text "al") (text "hello") none []

abbrev path : Text
path = comment_path (text "p") (text "c")

abbrev one : InMemoryStorage
one =
    (set (times path) (some al) governance path (documents.to_json first)
      (create_account (times path) (some al) (text "al") 900 InMemory.new).1).1

edited : (edit_comment documents store (text "p") (text "c") 7 (text "hi") al (some one)).0 ≡ ok tt
unfolding set create_account check_permission has_role has_role_for_identity add_role
    add_role_to_identity member add_member lookup insert lookup_in insert_in account_usage
    grow_usage update_account add_usage reduce_usage can_store text ◌==◌ make_internal_key get
    get_json new add_version print edit_comment edit_on_clone
edited = refl

history :
    get_comment_history documents store (text "p") (text "c") (some al) (some one)
    ≡ ok (version_of (text "hello") 5 ∷ [])
unfolding set create_account check_permission has_role has_role_for_identity add_role
    add_role_to_identity member add_member lookup insert lookup_in insert_in account_usage
    grow_usage update_account add_usage reduce_usage can_store text ◌==◌ make_internal_key get
    get_json new add_version print get_comment_history
history = refl

edit_comment-author_example :
    (c : ProposalComment) × (get_json documents store (some al) path one ≡ ok c)
    × (c.author ≡ al.current_identity_did)
edit_comment-author_example =
    edit_comment-author documents store (text "p") (text "c") al 7 (text "hi") one edited

get_comment_history-edit_comment_example :
    (get_comment_history documents store
        (text "p")
        (text "c")
        (some al)
        (some (edit_on_clone documents store (text "p") (text "c") 7 (text "hi") al one).1)
      ≡ ok (version_of (text "hello") 5 ∷ version_of (text "hi") 7 ∷ []))
    × (get_comment_history documents store
          (text "p")
          (text "c")
          (some al)
          (edit_comment documents store (text "p") (text "c") 7 (text "hi") al (some one)).1
        ≡ ok (version_of (text "hello") 5 ∷ []))
get_comment_history-edit_comment_example =
    get_comment_history-edit_comment documents times documents_read (text "p") (text "c") al 7
      (text "hi") one (version_of (text "hello") 5 ∷ []) history edited
