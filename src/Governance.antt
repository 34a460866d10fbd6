-- ===== src/Governance.antt =====
-- crates/icn-covm/src/governance: the governance operations of the VM and the life of a proposal.
pub mod Error
pub mod RankedVote
pub mod LiquidDelegate
pub mod ProposalLifecycle
pub mod Thresholds
pub mod Comments
