-- ===== src/Batch.antt =====
-- internal/service/comment/batch.go: the batch command on comments, its plan and its grouped writes,
-- with the many-row statements of internal/repository/comment.go.
pub mod Plan
pub mod Commands
pub mod Atomicity
pub mod Groups
