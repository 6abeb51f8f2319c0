-- ===== src/Creation.antt =====
-- internal/service/comment/create.go: how a comment comes to be, with the captcha (captcha.go), the
-- roles that a widget admits (widget.go) and the chain of spam detectors (spam.go).
pub mod Spam
pub mod Verdicts
pub mod Validation
pub mod Author
pub mod Reply
pub mod Impersonation
pub mod Invariant
pub mod Sound
pub mod Kept
pub mod Placement
pub mod Commands
