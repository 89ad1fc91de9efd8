-- ===== src/Index.antt =====
-- internal/index/index.go: the per-folder index. A table is an association list in row order. Each
-- write statement asks `faults` whether it fails (an empty list is a database that never fails), and
-- `readable` says whether queries answer. The values that the program stores as JSON are kept as
-- they are. Sequences start at 1 and are int64, kept as numbers.
pub mod Files
pub mod Store
pub mod Query
pub mod Gates
pub mod Fresh
pub mod Batch
pub mod Written
pub mod History
pub mod Touched
pub mod Prefix
pub mod Tests
