-- ===== src/Lib.antt =====
-- A verification library for stratosync, a daemon that mounts cloud storage and keeps its files in a
-- local cache. Paths are from the root of the repository.
--
-- The parts and how they work together. The daemon keeps one SQLite database (`file_index` and seven
-- smaller tables). The file system writes to it as files are opened and changed, the poller as the
-- remote reports changes, the upload queue as uploads end, the conflict resolver as an upload meets a
-- change of the remote, and the eviction loop as the cache grows over its quota. A row's status says
-- where the content is; `dirty` and `uploading` rows hold the only copy of local work. Old contents
-- are blobs of the base store, named by their hash, which versions and base versions refer to.
--
-- The files.
--   Common: names of the libraries, Boolean tests, lists, and maps over native numbers and texts.
--   Types: SyncStatus, FileKind, SyncError and the conversion of an rclone listing entry, of
--     crates/stratosync-core/src/types/mod.rs.
--   Config: transfer windows, of crates/stratosync-core/src/config/mod.rs (`parse_transfer_window`,
--     `parse_window`, `contains_minute`, `seconds_until_open`) and durations
--     (`parse_duration`). Texts are lists of code points.
--   State: crates/stratosync-core/src/state/mod.rs. Tables has a record for each table and the state
--     `Db`; Statement has the SQL statements with the constraints of the migrations (triggers, unique
--     indexes, foreign keys with their cascades); Files, Remote, Cache, Poll, Health, Queue and
--     Versions have one function for each method of `StateDb`, under the method's name. A call gives
--     a result and a state; a failed statement changes nothing, but what the method wrote before it
--     stays, as in the code, except inside the code's own transactions. Keys, Rows, Preserve, Keeps,
--     Methods, RemoteKeeps and Invariant lead to the invariant of Valid for every state of Reach;
--     Sorted and Counts are about ORDER BY and what it leaves of counts; Clear, Pending, Generation,
--     Stale, Candidates, Jobs, Streaks, Refresh and Prune are about single methods.
--   Cache: crates/stratosync-daemon/src/cache/mod.rs. Evict has `maybe_evict`, on the database and a
--     disk (Disk), with what other tasks write between its steps as two parameters; Bases has the
--     pins and `evict_stale_bases`, Shared what it does to blobs.
--   Sync: World has the state of the synchronisation tasks (database, cache files, blobs, headers)
--     and their calls with early returns; BaseStore is crates/stratosync-core/src/base_store.rs,
--     Versioning is `capture` of crates/stratosync-daemon/src/sync/versioning.rs; Rules, Backed and
--     Captures are about what calls maintain. Headers is the header cache of
--     crates/stratosync-daemon/src/fuse/header_cache.rs.
--   Poller: crates/stratosync-daemon/src/sync/poller.rs. Run has the loop, Diff the comparison of a
--     listing with the index, Full `poll_once` and Delta `poll_once_delta`. Steps has the abstract
--     poller, a step relation on databases; FullSteps, Refines and DeltaSteps show that the polls
--     make its steps, and Hidden, HiddenSteps, Excluded, Tokens and Progress what follows.
--   Upload: crates/stratosync-daemon/src/sync/upload_queue.rs. Loop has `upload_loop`, one function
--     for each arm of its select, and `turn` for a turn of the loop; Run has `run_upload`.
--   Conflict: `resolve` of crates/stratosync-daemon/src/sync/conflict.rs, beside a remote that is a
--     parameter with the calls of the `Backend` trait (Site).
--   Fuse: crates/stratosync-daemon/src/fuse. Handler has the state behind the handlers and their early
--     returns, Names the helpers on names and paths; Write, Remove, Rename and Tasks are
--     crates/stratosync-daemon/src/fuse/write_ops.rs with what it spawns; Open, Directory, Hydrate
--     (`do_hydrate`), Waiting (`hydrate_if_needed`) and Serve (the requests) are
--     crates/stratosync-daemon/src/fuse/mod.rs. Leaves has a rule for the end of a handler; Settled,
--     Fetched and Finished are about hydrations, and Written, Created, Moved, Gone and Deleted about
--     single handlers.
--   Backend: crates/stratosync-core/src/backend/delta.rs. Drive has `changes_since` of
--     `GoogleDriveDelta`, with the paths of Parents, Onedrive that of `OneDriveDelta`; Http has the
--     answers of the remote and their errors, Hashes crates/stratosync-core/src/hashes.rs. Pages,
--     Chains, Reports and Forms have the theorems. A call is a function of the list of answers to its
--     requests for pages: it goes on by recursion on that list, and while the list ends before the
--     call does, it gives `none`.
--
-- What stands for what. Rows stand in the order of their row ids; SQLite leaves the order of a SELECT
-- without ORDER BY open (an index may give another), and the model takes that one. `now` is SQLite's
-- `unixepoch()`. Sizes, times and ids are natural numbers, below 2^63 in the code; the casts between
-- u64 and i64 are the identity
-- there. The products of the quota with the floating-point marks of the eviction are its arguments
-- `high` and `target`. Parameters are: the RFC 3339 parser of chrono, the text of errors, `to_string`
-- and `parse` of u64, SHA-256, `to_lowercase`, the parts of a path, the globs of ignore patterns, git
-- merge-file, the decoders of Base64, the answers of the backend and of the operating system on paths,
-- and for the upload loop the resolver of conflicts. Rust's HashMap of pending uploads is an
-- association list, whose order stands for the order of its iteration. Instants are whole seconds. A
-- file that was just written or renamed has metadata, and a file that is stored as a blob is read
-- once. A poll, the resolution of a conflict and the handlers of the file system run without writes of
-- other tasks between their awaits; uploads and downloads have them during the transfer, and the
-- eviction between its steps. Other tasks may add channels to a hydration until it tells them.
--
-- Fuel. Only the outer loop of the eviction needs it: a round that goes on has freed at least a byte,
-- so one round more than the bytes to free is enough, and the ending `out_of_fuel` does not occur.
--
-- Not modelled: the methods that match with LIKE (`is_tombstoned`, `list_file_descendants`), the two
-- counts by status, opening and migrating the database; `make_conflict_name`, the comparison of
-- contents, the orphan walk; `read` of the file system with its range downloads and header
-- prefetches, and the limits of prefetches; the calls of rclone and WebDAV, and the start tokens of
-- the providers; the command line, the tray, sockets, metrics and inotify, which are input and output.
-- Desktop notifications, log lines and the dashboard's snapshots change no state and are left out.
pub mod Common
pub mod Types
pub mod Config
pub mod State
pub mod Cache
pub mod Upload
pub mod Sync
pub mod Poller
pub mod Conflict
pub mod Fuse
pub mod Backend
