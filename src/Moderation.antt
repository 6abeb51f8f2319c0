-- ===== src/Moderation.antt =====
-- internal/service/comment/moderation.go and deletion.go: the state machine of a comment's status,
-- and the single-comment commands of an administrator or an owner.
pub mod Transition
pub mod Commands
pub mod Rows
pub mod Kept
pub mod Invariant
pub mod HardDelete
pub mod Pins
pub mod Ownership
