-- ===== src/Bytecode.antt =====
-- bytecode.rs: the instructions of the bytecode, and programs. The operations that the program was
-- compiled from, kept for debugging, are left out.
pub mod Compiler
pub mod Interpreter
pub mod Code
pub mod Steps
pub mod Correct
pub mod Tests
use icn_covm.Prelude.{ℕ, Option, List, [], Text, Dict}
use icn_covm.Vm.Values.{TypedValue}

mutual
  pub data BytecodeOp (F D : Type 0) : Type 0 where
    push : TypedValue F → BytecodeOp F D
    store load : (name : Text) → BytecodeOp F D
    add sub mul div : BytecodeOp F D
    emit : Text → BytecodeOp F D
    emit_event : (category message : Text) → BytecodeOp F D
    call : Text → BytecodeOp F D
    jump_if_zero jump : ℕ → BytecodeOp F D
    function_entry : Text → List Text → BytecodeOp F D
    return_op : BytecodeOp F D
    assert_top : TypedValue F → BytecodeOp F D
    assert_memory : Text → TypedValue F → BytecodeOp F D
    assert_equal_stack : ℕ → BytecodeOp F D
    ranked_vote : List Text → List (List ℕ) → BytecodeOp F D
    liquid_delegate : Text → Text → BytecodeOp F D
    vote_threshold quorum_threshold : F → BytecodeOp F D
    break_op continue_op : BytecodeOp F D
    store_p load_p : Text → BytecodeOp F D
    dup pop swap eq gt lt negate and_op or_op not_op : BytecodeOp F D
    load_param : Text → BytecodeOp F D
    assert_op assert_eq print_op : BytecodeOp F D
    store_storage load_storage : Text → BytecodeOp F D
    load_storage_version : Text → ℕ → BytecodeOp F D
    list_storage_versions : Text → BytecodeOp F D
    diff_storage_versions : Text → ℕ → ℕ → BytecodeOp F D
    modulo : BytecodeOp F D
    require_identity : Text → BytecodeOp F D
    verify_signature : BytecodeOp F D
    create_resource : Text → BytecodeOp F D
    mint : (resource account : Text) → TypedValue F → Option Text → BytecodeOp F D
    transfer : (resource from to : Text) → TypedValue F → Option Text → BytecodeOp F D
    burn : (resource account : Text) → TypedValue F → Option Text → BytecodeOp F D
    balance : (resource account : Text) → BytecodeOp F D
    get_identity : Text → BytecodeOp F D
    require_valid_signature : (voter message signature : Text) → BytecodeOp F D
    increment_reputation : Text → Option (TypedValue F) → Option Text → BytecodeOp F D
    if_passed else_op : BytecodeBlock F D → BytecodeOp F D
    macro : Text → BytecodeOp F D
    nop : BytecodeOp F D
    require_role : Text → BytecodeOp F D
    min_deliberation expires_in : D → BytecodeOp F D

  pub data BytecodeBlock (F D : Type 0) : Type 0 where
    end : BytecodeBlock F D
    and_then : BytecodeOp F D → BytecodeBlock F D → BytecodeBlock F D

pub record BytecodeProgram (F D : Type 0) : Type 0 where
  pub instructions : List (BytecodeOp F D)
  pub function_table : Dict ℕ

abbrev pub new : {F D : Type 0} → BytecodeProgram F D
new = record { instructions = []; function_table = [] }
