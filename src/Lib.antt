-- ===== src/Lib.antt =====
-- icn-covm is a virtual machine for cooperatives, with governed, versioned and permissioned storage
-- and a ledger of governance events. This library models the machine with its bytecode, the storage
-- with its accounts, versions, roles and transactions, the economic operations on top of it, the
-- governance components, the votes of a federation and the ledger, and proves what makes them correct.
--
-- Which file models what (paths from the repository's root; `covm` is crates/icn-covm/src):
--
-- - Prelude: Boolean tests, byte texts, maps as association lists, decimal numbers, and `Action`, the
--   calls that mutate a state and may fail. An error keeps the state reached before it, as `?` does.
-- - Storage.Types, Storage.Identity: covm/storage/errors.rs, covm/storage/events.rs,
--   covm/storage/utils.rs, and the records of covm/identity.rs.
-- - Storage.Auth: covm/storage/auth.rs, `AuthContext` with its roles, memberships and delegations.
-- - Storage.Resource: covm/storage/resource.rs, the quota of a storage account.
-- - Storage.Versioning: covm/storage/versioning.rs, version chains and the bounded version store.
-- - Storage.Namespaces: covm/storage/namespaces.rs, the registry of namespaces.
-- - Storage.InMemory: covm/storage/implementations/in_memory.rs. The operations that change the
--   state are in InMemory.antt, the reads in InMemory/Reads.antt, begin, commit and rollback in
--   InMemory/Transactions.antt.
-- - Economic: `EconomicOperations` of covm/storage/traits.rs, over the interface `Backend` of
--   Economic/Interface.antt, which Economic/InMemoryBackend.antt fills with the in-memory storage.
-- - Governance.RankedVote: covm/governance/ranked_vote.rs.
-- - Governance.LiquidDelegate: covm/governance/liquid_delegate.rs.
-- - Governance.Thresholds: covm/governance/quorum_threshold.rs, covm/governance/vote_threshold.rs.
-- - Governance.Comments: covm/governance/comments.rs, over an interface of the storage, which
--   Comments/InMemory.antt fills. `on_clone` is a call that writes to a copy of the machine's storage.
-- - Governance.ProposalLifecycle: covm/governance/proposal_lifecycle.rs, the states of a proposal.
-- - Federation: the types of covm/federation/messages.rs and the voters of covm/identity.rs;
--   Federation.Votes and Federation.Ballots: covm/federation/storage.rs.
-- - Ledger: crates/icn-ledger/src/lib.rs.
-- - Vm.Values: covm/typed.rs, the values with their coercions, operations and comparisons.
-- - Vm.Memory: covm/vm/memory.rs, variables, functions and call frames; Memory/Display.antt prints it.
-- - Vm.Error: covm/vm/errors.rs. Vm.Stack: covm/vm/stack.rs. Vm.Types: covm/vm/types.rs, the operations.
-- - Vm.Execution: covm/vm/execution.rs, the executor. `Host` is its interface of a storage backend,
--   which Vm.InMemoryHost fills with the in-memory storage and the `store` and `load` of
--   covm/storage/traits.rs. Operators, Persistence, Economy and Fork hold the executor's operations.
-- - Vm.Machine and Vm.Interpreter: covm/vm/vm.rs. Machine/Leaf.antt has the operations without a block
--   and the dispatch of covm/governance/mod.rs, Machine/Explain.antt `explain_op`, and
--   Interpreter.antt `execute_inner` and `execute_call`. Machine/Parameters.antt sets parameters.
-- - Bytecode: covm/bytecode.rs, with Bytecode.Compiler and Bytecode.Interpreter. Bytecode.Code
--   describes the code of a block without the compiler's mutation, for the proofs.
--
-- How they interact: every storage call asks `check_permission`, which reads the roles of the calling
-- `AuthContext`; `set` then charges the caller's `ResourceAccount`, extends the key's version chain,
-- and logs the old value in the transaction on top of the stack. The economic operations see a
-- backend only through `contains`, `get` and `set`. The governance handlers act on the VM's stack,
-- memory and events. The interpreter runs operations on the stack, memory and executor of the machine;
-- the bytecode interpreter runs instructions on the same machine; the executor sees its storage
-- through `Host`. Comments and the votes of a federation are kept in storages that they see through
-- interfaces of their own. The ledger stands alone.
--
-- Conventions and bounds:
--
-- - A u64 addition wraps around at 2 ^ 64, as in a release build; quotas saturate as the source does.
-- - A text or byte vector is its list of bytes. Readings of the clock are arguments of a call.
--   Times of a proposal are milliseconds, and neither they nor durations are negative. An i64 that may
--   be negative is an integer of Prelude.Integers.
-- - What a proposal's votes come to is an argument of `transition_to_executed`, `transition_to_rejected`
--   and `transition_to_expired`: the `check_passed` that they call is not in the repository.
-- - f64 values, JSON values and texts, hashes and the stack's values are parameters.
-- - The interpreter runs on fuel, one unit for each nested block, operation and round of a loop; a
--   block without `While` and `Call` needs no more than `cost_ops` counts. The bytecode interpreter
--   spends one unit for each instruction. `none` is the lack of fuel, never an error of the program.
-- - `print` of a number n has fuel n + 1, more than it has digits. The search for a delegation cycle
--   has fuel for two passes more than there are delegations, since every other pass visits a new
--   delegator; an export of the ledger for one visit more than there are nodes, since a visit inside
--   another finds a new node; the search for an ancestor of a namespace for one pass more than its
--   path has bytes, since a parent's path is shorter.
-- - A `HashMap` is an association list; no theorem depends on the order of its entries.
--
-- Not modelled: the tracer, the DAG path and the federation extension of the machine, the listing of
-- bytecode, the DSL compiler, vote tallies, the records of proposals, file storage, keys, real
-- signatures, networking, the command line and the HTTP API. Of the in-memory storage, `set_json` and
-- `get_json` only call serde_json, and `diff_versions` and `list_namespaces` only read; a call of
-- `create_namespace` without a caller panics and has no model.
pub mod Prelude
pub mod Storage
pub mod Economic
pub mod Governance
pub mod Ledger
pub mod Vm
pub mod Bytecode
pub mod Federation
