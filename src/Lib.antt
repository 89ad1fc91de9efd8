-- ===== src/Lib.antt =====
-- CrossSync: the synchronisation core, as functions on explicit state.
--
-- The program keeps folders of several devices alike. A scanner reports local changes to the
-- folder's engine (internal/sync/engine.go), which writes them to the folder's index
-- (internal/index/index.go) with a bumped version vector (internal/version/version.go). Sessions
-- exchange indexes, whole or as the entries after a sequence, and hand them to the engine as
-- views of the peers' indexes. From the index and the views the engine works out the winning
-- version of each name, what to fetch, what to send and what to delete, and keeps these lists up
-- to date name by name (internal/sync/pending_incremental.go), driven by a hook that the index
-- calls for every write.
--
-- The files, with the code they model:
--   * Base: names of the libraries passed on, tests on numbers, lists by native numbers, the
--     class KeyEq.
--   * Table: Go maps and keyed SQL tables as association lists, in the order in which a loop
--     meets them. A theorem about a map quantifies over its list, so it holds for every order, but
--     two loops over one map in one theorem meet it in the same order, as Go's need not.
--   * Text: byte strings, their order, and sort.Strings.
--   * Version: internal/version/version.go. Order has Compare, Join has Merge and Bump.
--   * Hash: internal/hash/hash.go. Blocks has the block size, Stream the streaming hasher, Flat
--     the form in the database.
--   * Index: internal/index/index.go. Files has the records, Store the writes, Query the reads,
--     Gates the peer markers and the settle and missing tables; Fresh, Batch, Written, History,
--     Touched and Prefix have the properties.
--   * Engine: internal/sync. State has the engine, Content and Global the comparison of entries
--     and globalFrom, Views the peer views and the stability gate, Pending the classification
--     and the full walk, Refresh ensurePendingLocked; Walk, Coherent, Ensure, Frame, Preserve,
--     Hooked, Saved, Touched, Events, Lost and Marks are about the lists, Winner about
--     globalFrom. Local, Batch and Gate have local changes and the releases of gate_release.go,
--     with Planned, Supersede, Chunks, Release and Confirm; Join, Moves and Overwrite have JoinIdentical, moves,
--     deletions and overwrite plans, with Joined, Groups, Relocate and Doomed; Execute carries a
--     plan out, with Copied; Delta is about exchanging entries after a sequence.
--   * Session: internal/node/session.go and codec.go, the exchange of a folder's index in
--     frames, with Arrived and Exchange; Guard has the guard against mass deletions.
--   * Temp: the bytes of a file on disk, with what a write that fails half way leaves.
--   * Pull: the download of one file into a staged temp (engine.go, pull_run.go and
--     block_reuse.go). Start has its start, the reuse of local files and its end; Blocks, Runs,
--     Intact, Filled, History and Download are about what the temp holds; Donors is the cache of
--     the blocks of a directory, with Rows, Kept and Cache.
--   * PullBatch: internal/node/pull_batch.go, the pulls of a folder over one connection, against
--     the interface Host; Order is the order of its names; Runs, Answers, Starved and
--     Order.Sorted, with Order.Sizes, have the properties.
--   * Scanner: the two gates of internal/scanner/scanner.go, with Settled, Confirmed and
--     Deferred; Renames is its deleted pass, with Pairs, Counts, Stays and
--     Folded.
--   * PathQueue: cmd/crosssync/pathqueue.go, the queue of the paths that a watcher saw change,
--     with Covers and Drained.
--   * Version.Tests, Hash.Tests, Index.Tests, Engine.Tests, Session.Tests, Pull.Tests,
--     PullBatch.Tests, Scanner.Tests and PathQueue.Tests: runs on small states.
--
-- How the code corresponds to the definitions. A method that runs under the engine's or the
-- index's lock is a function from the state before to the state after and its result; snake_case
-- names are those of the source. An operation on the database consults the list `faults`, which
-- says of each statement whether it fails, and `readable`, which says whether queries are
-- answered. `touched` collects the names that the hook is called with, and `hooked` hands them
-- to the engine. A Go map is an association list, whose order stands for the order in which a
-- loop meets the entries. Numbers are natural numbers; int64 values are those below 2 ^ 64 that
-- stand for them in two's complement, compared with `signed_gt`; the counters of version vectors
-- wrap.
--
-- Bounds and fuel: block sizes double at most 8 times, from 128 KiB to 16 MiB; one read is
-- absorbed in at most as many rounds as it has bytes; a hash list is cut in at most as many as
-- it has bytes; hexadecimal numbers have 16 digits and decimal ones 19; chunks of a batch are
-- written in at most as many rounds as the batch has entries, and a folder is sent in at most
-- one frame more than it has entries. A window is filled in at most as many rounds as it has
-- places, and a path has at most as many ancestors as bytes.
--
-- Parameters: the staged temp and the local files that a pull meets, how much of a write gets
-- onto the disk, the messages that a batch reads and which of its sends fail, what the walk of a
-- scan saw, SHA-256, the include matcher, the file system (stat, relocating a file, the name of
-- a conflict copy), and the lengths of a chunk and of a frame and the least number of deletions
-- that the guard looks at, which are variables of the source.
--
-- Not modelled: opening, migrating and checking the SQLite file, JSON and the wire form, events,
-- log lines and statistics, deletions on disk, the scanner's walk and its pairing by size and
-- time, the other phases of a session, the rest of the node, staging, the hold area, the control
-- interface and the command line.
pub mod Base
pub mod Table
pub mod Version
pub mod Hash
pub mod Text
pub mod Temp
pub mod Index
pub mod Engine
pub mod Pull
pub mod Session
pub mod Scanner
pub mod PullBatch
pub mod PathQueue
