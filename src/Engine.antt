-- ===== src/Engine.antt =====
-- internal/sync: the per-folder engine. It keeps the local index and a view of each peer's index, and
-- decides what to fetch, what to send and what to delete. Methods run under the engine's lock, one at
-- a time, so each is a function from the state before it to the state after it.
pub mod Touched
pub mod State
pub mod Content
pub mod Global
pub mod Views
pub mod Pending
pub mod Refresh
pub mod Walk
pub mod Coherent
pub mod Ensure
pub mod Winner
pub mod Frame
pub mod Preserve
pub mod Events
pub mod Lost
pub mod Local
pub mod Planned
pub mod Supersede
pub mod Gate
pub mod Release
pub mod Batch
pub mod Chunks
pub mod Join
pub mod Joined
pub mod Moves
pub mod Overwrite
pub mod Execute
pub mod Doomed
pub mod Marks
pub mod Delta
pub mod Tests
pub mod Relocate
pub mod Groups
pub mod Saved
pub mod Hooked
pub mod Confirm
