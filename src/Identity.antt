-- ===== src/Identity.antt =====
-- internal/service/identity: the administrator's commands on users and the protection of the last
-- active administrator.
pub mod Batch
pub mod Commands
pub mod Counting
pub mod Demotion
pub mod LastAdmin
pub mod Removal
pub mod Spares
pub mod Update
