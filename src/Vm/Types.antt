-- ===== src/Vm/Types.antt =====
-- vm/types.rs: the operations of the virtual machine, over the type `F` of floats and the type `D` of
-- durations, and the events. A block of operations is `Ops`, and `Cases` the arms of a match.
pub mod Display
use icn_covm.Prelude.{ℕ, Option, List, Text}
use icn_covm.Storage.Types.{Timestamp}
use icn_covm.Vm.Values.{TypedValue}

infixr 67 ◌⨾◌
mutual
  pub data Op (F D : Type 0) : Type 0 where
    push : TypedValue F → Op F D
    add sub mul div modulo : Op F D
    store load : (name : Text) → Op F D
    if_op : (condition then_ : Ops F D) (else_ : OptionOps F D) → Op F D
    loop_op : (count : ℕ) (body : Ops F D) → Op F D
    while_op : (condition body : Ops F D) → Op F D
    emit : (message : Text) → Op F D
    negate : Op F D
    assert_top : (expected : TypedValue F) → Op F D
    dump_stack dump_memory : Op F D
    assert_memory : (key : Text) (expected : TypedValue F) → Op F D
    pop eq gt lt not_op and_op or_op dup swap over : Op F D
    def : (name : Text) (params : List Text) (body : Ops F D) → Op F D
    call : (name : Text) → Op F D
    return_op nop : Op F D
    match_op : (value : Ops F D) (cases : Cases F D) (default : OptionOps F D) → Op F D
    break_op continue_op : Op F D
    emit_event : (category message : Text) → Op F D
    assert_equal_stack : (depth : ℕ) → Op F D
    dump_state : Op F D
    ranked_vote : (candidates ballots : ℕ) → Op F D
    liquid_delegate : (from to : Text) → Op F D
    vote_threshold quorum_threshold : F → Op F D
    min_deliberation expires_in : D → Op F D
    require_role : Text → Op F D
    store_p load_p : (key : Text) → Op F D
    load_version_p : (key : Text) (version : ℕ) → Op F D
    list_versions_p : (key : Text) → Op F D
    diff_versions_p : (key : Text) (v1 v2 : ℕ) → Op F D
    verify_identity : (identity_id message signature : Text) → Op F D
    check_membership : (identity_id namespace : Text) → Op F D
    check_delegation : (delegator_id delegate_id : Text) → Op F D
    verify_signature : Op F D
    create_resource : (resource : Text) → Op F D
    mint : (resource account : Text) (amount : F) (reason : Option Text) → Op F D
    transfer : (resource from to : Text) (amount : F) (reason : Option Text) → Op F D
    burn : (resource account : Text) (amount : F) (reason : Option Text) → Op F D
    balance : (resource account : Text) → Op F D
    get_identity : Text → Op F D
    require_valid_signature : (voter message signature : Text) → Op F D
    if_passed else_op : (block : Ops F D) → Op F D
    increment_reputation : (identity_id : Text) (amount : Option F) (reason : Option Text) → Op F D
    macro : Text → Op F D

  pub data Ops (F D : Type 0) : Type 0 where
    end : Ops F D
    ◌⨾◌ : Op F D → Ops F D → Ops F D

  pub data OptionOps (F D : Type 0) : Type 0 where
    no_block : OptionOps F D
    block : Ops F D → OptionOps F D

  pub data Cases (F D : Type 0) : Type 0 where
    no_cases : Cases F D
    case : (value : TypedValue F) (body : Ops F D) (rest : Cases F D) → Cases F D

pub data LoopControl : Type 0 where
  no_control : LoopControl
  break : LoopControl
  continue : LoopControl

pub record VmEvent : Type 0 where
  pub category : Text
  pub message : Text
  pub timestamp : Timestamp
