-- ===== src/Governance/Comments/InMemory.antt =====
-- The in-memory storage behind the comments; the readings of the clock may differ from key to key.
use icn_covm.Prelude.{List, Text, ℕ}
use icn_covm.Storage.InMemory.{InMemoryStorage, Times, set}
use icn_covm.Storage.InMemory.Reads.{get, list_keys}
use icn_covm.Governance.Comments.{CommentStore}

abbrev pub in_memory_comments : {J : Type 0} → (Text → Times) → CommentStore (List ℕ) J
in_memory_comments times = record {
  S = InMemoryStorage;
  get = get;
  list_keys = list_keys;
  set = λ auth namespace key. set (times key) auth namespace key;
}
