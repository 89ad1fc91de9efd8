-- ===== src/Engine/Tests.antt =====
-- internal/sync: runs on small states, by what they are about.
mod Pending
mod Winners
mod Writes
