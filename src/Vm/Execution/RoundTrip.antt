-- ===== src/Vm/Execution/RoundTrip.antt =====
-- vm/execution.rs: a value that is stored and loaded again. `Display` writes a string with quotes, and
-- the load does not take them off.
use icn_covm.Prelude.{
  ℕ, ◌≡◌, refl, Bool, true, false, ◌&&◌, Option, none, some, List, [], ◌∷◌, ◌++◌, Text, text, ◌==◌,
  Option-cases, inl, inr,
}
use icn_covm.Prelude.Actions.{ok}
use icn_covm.Storage.Types.{StorageEvent}
use icn_covm.Vm.Values.{Floats, TypedValue, number, boolean, string, null, to_text}
use icn_covm.Vm.Execution.{Host, VmExecution, storage_operation, log_storage_event}
use icn_covm.Vm.Execution.Utf8.{is_utf8, utf8_from, within, following}
use icn_covm.Vm.Execution.Persistence.{
  MissingKeyBehavior, execute_store_p, execute_load_p, parse_bytes,
}

-- What is relied on of the printing and the parsing of an f64: a printed number is a text that
-- parses to the number, and neither the words of the other values nor a quote begins a number.
pub record FloatText (N : Floats) : Type 0 where
  pub parse-print : (n : N.F) → N.parse (N.print n) ≡ some n
  pub is_utf8-print : (n : N.F) → is_utf8 (N.print n) ≡ true
  pub parse-true : N.parse (text "true") ≡ none
  pub parse-false : N.parse (text "false") ≡ none
  pub parse-null : N.parse (text "null") ≡ none
  pub parse-quote : (t : Text) → N.parse (text "\"" ++ t) ≡ none

-- A Rust string is valid UTF-8.
abbrev pub IsText : {F : Type 0} → TypedValue F → Type 0
IsText (string t) = is_utf8 t ≡ true
IsText v = Unit

-- what a load gives for a stored value
unfoldable pub reloaded : {F : Type 0} → TypedValue F → TypedValue F
reloaded (string t) = string (text "\"" ++ (t ++ text "\""))
reloaded v = v

&&-split : (a b : Bool) → (a && b) ≡ true → (a ≡ true) × (b ≡ true)
&&-split true b h = (refl, h)
&&-split false b h = absurd (cc)

utf8_from-quote :
    (rs : List (ℕ × ℕ)) (t : Text) → utf8_from rs t ≡ true → utf8_from rs (t ++ text "\"") ≡ true
unfolding text
utf8_from-quote [] [] h = refl
utf8_from-quote (r ∷ rs) [] h = absurd (cc)
utf8_from-quote (r ∷ rs) (b ∷ bs) h =
    let (in_range, rest) = &&-split (within r b) (utf8_from rs bs) h in
    rw (in_range) (utf8_from-quote rs bs rest)
utf8_from-quote [] (b ∷ bs) h = elim (Option-cases (following b)) [
  | inl e ↦ absurd (let k = rw (e, utf8_from) at h in cc)
  | inr (rs, e) ↦ rw (e, utf8_from) (utf8_from-quote rs bs (rw (e, utf8_from) at h))
]

module _ {N : Floats} (H : Host N) (L : FloatText N) where
  open N use {F}
  open H use {S, J}

  parse_bytes-to_text :
      (key : Text) (v : TypedValue F) → IsText v → parse_bytes H key (to_text N v) ≡ ok (reloaded v)
  unfolding to_text reloaded is_utf8 text ◌==◌
  parse_bytes-to_text key (number n) h = rw (L.is_utf8-print n, L.parse-print n) refl
  parse_bytes-to_text key (boolean true) h = rw (L.parse-true) refl
  parse_bytes-to_text key (boolean false) h = rw (L.parse-false) refl
  parse_bytes-to_text key (string t) h =
      rw (utf8_from-quote [] t h, L.parse-quote (t ++ text "\"")) refl
  parse_bytes-to_text key null h = rw (L.parse-null) refl

  load_lem :
      (key : Text) (v : TypedValue F) (behavior : MissingKeyBehavior)
      (event event' : Option StorageEvent) (e : VmExecution S J) (s s' : S)
      → IsText v
      → e.storage_backend ≡ some s
      → H.load e.auth_context e.namespace key s ≡ (ok (to_text N v, event'), s')
      → (execute_load_p H key behavior
          (log_storage_event (text "storage") (text "store: ") event e)).0
        ≡ ok (reloaded v)
  unfolding execute_load_p storage_operation
  load_lem key v behavior none event' e s s' h b l = rw (b, l) (parse_bytes-to_text key v h)
  load_lem key v behavior (some ev) event' e s s' h b l = rw (b, l) (parse_bytes-to_text key v h)

  -- A value that is stored under a key and then loaded from it comes back as itself, if it is a number,
  -- a Boolean or null; a string comes back between quotes. This is where the backend takes the bytes,
  -- and gives the same bytes back.
  pub execute_load_p-execute_store_p :
      (key : Text) (v : TypedValue F) (behavior : MissingKeyBehavior) (e : VmExecution S J)
      (s s' s'' : S) (event event' : Option StorageEvent)
      → IsText v
      → e.storage_backend ≡ some s
      → H.store e.auth_context e.namespace key (to_text N v) s ≡ (ok event, s')
      → H.load e.auth_context e.namespace key s' ≡ (ok (to_text N v, event'), s'')
      → (execute_load_p H key behavior (execute_store_p H key v e).1).0 ≡ ok (reloaded v)
  unfolding execute_store_p storage_operation
  execute_load_p-execute_store_p key v behavior e s s' s'' event event' t h st ld =
      rw (h, st)
        (load_lem key v behavior event event' (record e { storage_backend = some s' }) s' s'' t refl
          ld)
