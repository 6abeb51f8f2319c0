-- ===== src/Tests.antt =====
-- Small databases on which the theorems of the development are applied.
pub mod Data
mod Identities
mod Comments
mod Requests
mod Liked
mod Cached
mod Guessed
mod Authorized
mod Threaded
mod Paged
