-- ===== src/Storage/InMemory/Rollback.antt =====
-- InMemoryStorage: what a rollback restores.
use icn_covm.Prelude.{
  ℕ, ◌≡◌, refl, ap, ◌∙◌, false, ◌&&◌, Option, none, some, List, [], ◌∷◌, Text, text, ◌==◌, ==_iff,
  ◌⊎◌, inl, inr, Dict, lookup, insert, contains, lookup_in, insert_in, remove_within,
  lookup_in-insert_in, lookup_in-remove_in, lookup_in-remove_within, lookup-insert, length, arith,
}
use icn_covm.Prelude.Actions.{Result, ok, ok_or, resume_post}
use icn_covm.Storage.Types.{StorageError}
use icn_covm.Storage.Auth.{AuthContext}
use icn_covm.Storage.InMemory.{
  InMemoryStorage, Times, Entry, record_entry, check_permission, account_usage, make_internal_key,
  size_of, set, delete, create_account, create_namespace,
}
use icn_covm.Storage.InMemory.Writes.{account_usage_keeps}
use icn_covm.Storage.InMemory.Transactions.{
  undo, undo_all, rollback_stack, begin_transaction, rollback_transaction, Request, set_value,
  delete_key, add_account, add_namespace, perform, perform_all,
}

-- the same value, or none, at every namespace and key
abbrev pub Agree : Dict (Dict (List ℕ)) → Dict (Dict (List ℕ)) → Type 0
Agree d d' = (ns k : Text) → lookup_in ns k d ≡ lookup_in ns k d'

undo-Agree : (e : Entry) (d d' : Dict (Dict (List ℕ))) → Agree d d' → Agree (undo e d) (undo e d')
undo-Agree (n, j, none) d d' h ns k = rw (lookup_in-remove_in, lookup_in-remove_in, h ns k) refl
undo-Agree (n, j, some v) d d' h ns k = rw (lookup_in-insert_in, lookup_in-insert_in, h ns k) refl

undo_all-Agree :
    (log : List Entry) (d d' : Dict (Dict (List ℕ)))
    → Agree d d'
    → Agree (undo_all log d) (undo_all log d')
unfolding undo_all
undo_all-Agree [] d d' h = h
undo_all-Agree (e ∷ log) d d' h = undo_all-Agree log (undo e d) (undo e d') (undo-Agree e d d' h)

-- To undo an entry whose old value is what `d` holds, after anything was done at its key.
undo_restores :
    (n j : Text) (old : Option (List ℕ)) (d d' : Dict (Dict (List ℕ)))
    → lookup_in n j d ≡ old
    → ((ns k : Text) → (n == ns && j == k) ≡ false → lookup_in ns k d' ≡ lookup_in ns k d)
    → Agree (undo (n, j, old) d') d
undo_restores n j none d d' e h ns k =
    rw lookup_in-remove_in (ground (arith, h ns k, ==_iff n ns, ==_iff j k))
undo_restores n j (some v) d d' e h ns k =
    rw lookup_in-insert_in (ground (arith, h ns k, ==_iff n ns, ==_iff j k))

-- What one call does to the values and to the transaction on top: it changes no value, or it has
-- recorded an entry that undoes its change.
abbrev Effect : InMemoryStorage → InMemoryStorage → Type 0
Effect s s' =
    (Agree s'.values s.values × (s'.transaction_stack ≡ s.transaction_stack))
    ⊎ ((e : Entry) × (s'.transaction_stack ≡ record_entry e s.transaction_stack)
        × Agree (undo e s'.values) s.values)

set-Effect :
    {J : Type 0} (times : Times) (auth : Option (AuthContext J)) (ns key : Text) (v : List ℕ)
    (s : InMemoryStorage)
    → Effect s (set times auth ns key v s).1
unfolding set
set-Effect times none ns key v s =
    resume_post (Effect s) (check_permission none (text "write") ns) s _ (inl (λ n k. refl, refl))
      (λ _ _. inr (entry, refl, recorded))
  where
    entry : Entry
    entry = (ns, key, lookup_in ns key s.values)

    recorded : Agree (undo entry s.values) s.values
    recorded = undo_restores ns key _ s.values s.values refl (λ n k _. refl)
set-Effect times (some a) ns key v s =
    resume_post (Effect s) (check_permission (some a) (text "write") ns) s _
      (inl (λ n k. refl, refl))
      (λ _ _.
        resume_post (Effect s) used.0 used.1 _
          (inr (
            entry,
            kept.1,
            undo_restores ns key _ s.values used.1.values refl (λ n k _. rw kept.0 refl),
          ))
          (λ _ _. inr (
            entry,
            kept.1,
            undo_restores ns key _ s.values (insert_in ns key v used.1.values) refl
                (λ n k e. rw (lookup_in-insert_in, e, kept.0) refl),
          )))
  where
    entry : Entry
    entry = (ns, key, lookup_in ns key s.values)

    recorded : InMemoryStorage
    recorded = record s { transaction_stack = record_entry entry s.transaction_stack }

    used : Result StorageError (Unit {0}) × InMemoryStorage
    used =
        account_usage times.account a.current_identity_did (make_internal_key ns key)
          (size_of (lookup_in ns key s.values)) (length v) recorded

    kept :
        (used.1.values ≡ s.values)
        × (used.1.transaction_stack ≡ record_entry entry s.transaction_stack)
    kept =
        let k =
          account_usage_keeps times.account a.current_identity_did (make_internal_key ns key)
            (size_of (lookup_in ns key s.values)) (length v) recorded in
        (k.0, k.1)

delete-Effect :
    {J : Type 0} (times : Times) (auth : Option (AuthContext J)) (ns key : Text)
    (s : InMemoryStorage)
    → Effect s (delete times auth ns key s).1
unfolding delete
delete-Effect times none ns key s = inl (λ n k. refl, refl)
delete-Effect times (some a) ns key s =
    resume_post (Effect s) (check_permission (some a) (text "write") ns) s _
      (inl (λ n k. refl, refl))
      (λ _ _.
        resume_post (Effect s) (ok_or (lookup_in ns key s.values) _) s _ (inl (λ n k. refl, refl))
          (λ v e. inr (
            (ns, key, some v),
            refl,
            undo_restores ns key (some v) s.values (remove_within ns key s.values)
                (ground (arith, e)) (λ n k e. rw (lookup_in-remove_within, e) refl),
          )))

create_account_keeps :
    {J : Type 0} (times : Times) (auth : Option (AuthContext J)) (user : Text) (quota : ℕ)
    (s : InMemoryStorage)
    → let s' = (create_account times auth user quota s).1 in
      (s'.values ≡ s.values) × (s'.transaction_stack ≡ s.transaction_stack)
unfolding create_account
create_account_keeps times none user quota s = (refl, refl)
create_account_keeps times (some a) user quota s = ground arith

-- A new, empty namespace holds no value.
new_namespace-Agree :
    (ns : Text) (d : Dict (Dict (List ℕ))) → contains ns d ≡ false → Agree (insert ns [] d) d
unfolding lookup_in lookup
new_namespace-Agree ns d h n k = rw lookup-insert (ground (arith, ==_iff ns n))

create_namespace_keeps :
    {J : Type 0} (times : Times) (a : AuthContext J) (ns : Text) (quota : ℕ) (parent : Option Text)
    (s : InMemoryStorage)
    → let s' = (create_namespace times a ns quota parent s).1 in
      ((s'.values ≡ s.values)
        ⊎ (contains ns s.values ≡ false) × (s'.values ≡ insert ns [] s.values))
      × (s'.transaction_stack ≡ s.transaction_stack)
unfolding create_namespace
create_namespace_keeps times a ns quota parent s = ground arith

-- The transactions below the one on top are `rest`, and undoing the one on top gives the values of
-- `base`.
abbrev pub Restores : Dict (Dict (List ℕ)) → List (List Entry) → InMemoryStorage → Type 0
Restores base rest s =
    (log : List Entry) × (s.transaction_stack ≡ log ∷ rest) × Agree (undo_all log s.values) base

Effect-Restores :
    (base : Dict (Dict (List ℕ))) (rest : List (List Entry)) (s s' : InMemoryStorage)
    → Effect s s'
    → Restores base rest s
    → Restores base rest s'
unfolding undo_all
Effect-Restores base rest s s' (inl (same, stack)) (log, top, h) =
    (log, stack ∙ top, λ n k. undo_all-Agree log _ _ same n k ∙ h n k)
Effect-Restores base rest s s' (inr (e, stack, undone)) (log, top, h) =
    (e ∷ log, stack ∙ ap (record_entry e) top, λ n k. undo_all-Agree log _ _ undone n k ∙ h n k)

perform-Effect : {J : Type 0} (r : Request J) (s : InMemoryStorage) → Effect s (perform r s)
unfolding perform
perform-Effect (set_value times auth ns key v) s = set-Effect times auth ns key v s
perform-Effect (delete_key times auth ns key) s = delete-Effect times auth ns key s
perform-Effect (add_account times auth user quota) s =
    let (values, stack) = create_account_keeps times auth user quota s in
    inl (λ n k. rw values refl, stack)
perform-Effect (add_namespace times a ns quota parent) s =
    let (values, stack) = create_namespace_keeps times a ns quota parent s in
    elim values [
      | inl same ↦ inl (λ n k. rw same refl, stack)
      | inr (new, grown) ↦ inl (λ n k. rw grown (new_namespace-Agree ns s.values new n k), stack)
    ]

pub perform_all-Restores :
    {J : Type 0} (base : Dict (Dict (List ℕ))) (rest : List (List Entry)) (rs : List (Request J))
    (s : InMemoryStorage)
    → Restores base rest s
    → Restores base rest (perform_all rs s)
unfolding perform_all
perform_all-Restores base rest [] s h = h
perform_all-Restores base rest (r ∷ rs) s h =
    perform_all-Restores base rest rs (perform r s)
      (Effect-Restores base rest s (perform r s) (perform-Effect r s) h)

-- Begin a transaction, make any calls (writes, deletions, new accounts and namespaces, with any
-- arguments, whether they succeed or fail), and roll back: the rollback succeeds, every namespace
-- and key has the value it had before, or none, and the transactions below are as they were.
pub rollback_restores :
    {J : Type 0} (rs : List (Request J)) (s : InMemoryStorage)
    → let (result, s') = rollback_transaction (perform_all rs (begin_transaction s).1) in
      (result ≡ ok tt) × Agree s'.values s.values × (s'.transaction_stack ≡ s.transaction_stack)
unfolding begin_transaction rollback_transaction undo_all
rollback_restores rs s =
    let (log, top, h) =
      perform_all-Restores s.values s.transaction_stack rs (begin_transaction s).1
        ([], refl, λ n k. refl) in
    rw (top, rollback_stack) (refl, h, refl)
