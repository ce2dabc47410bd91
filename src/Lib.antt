-- ===== src/Lib.antt =====
-- A model of homedrive (homedrive/ of the repository): an agent that keeps a local directory and a
-- Google Drive folder in step. The watcher reports local changes, which the push side uploads; the
-- puller polls the Changes API and applies remote changes; conflicts keep the loser under a name
-- `<path>.old.<N>`; a journal records what was last synced.
--
-- The files, with the code under homedrive/internal that they are about:
-- - Base: tests on numbers, lists, byte strings and times that the parts share.
-- - OldSuffix: oldsuffix/oldsuffix.go, the suffix `.old.<N>`: `TrimOne` is `trim_one`, `NextOldN`
--   is `next_old_n` and so on.
-- - Syncer/Types, Syncer/Go: the data of syncer/ifaces.go, rcloneclient/remotefs.go and
--   store/journal.go, and the form of the models: a function of the code is a program of calls to
--   the outside (local files, journal, remote, clock, audit log, publisher) with a branch for every
--   answer, on the state that its struct keeps in memory. Nothing is assumed of the answers.
-- - Syncer/Safe, Syncer/Ends: what holds of all calls of a program, and of its results.
-- - Syncer/Prune: store/prune.go; Syncer/Conflict: syncer/conflict.go; Syncer/Pull:
--   syncer/pull_process.go, pull_dir.go, pull_dangling.go and `adoptIdenticalRemote`;
--   Syncer/Poll: syncer/puller.go; Syncer/Retry: syncer/retry.go; Syncer/Push: syncer/syncer.go,
--   push_dir.go, push_remove.go and `pushEntry`.
-- - Syncer/Bisync: syncer/bisync.go, bisync_ops.go and repair.go: the difference of the two sides,
--   what is done with each, the repair of nested suffixes, and the pass under the mutex of the
--   workers.
-- - Store: store/rename.go, journal.go (Store/Journal) and conflict.go (Store/Resolver), over a
--   bucket of bbolt as an interface with laws (Store/Bucket).
-- - Remote: rcloneclient/driveapi.go with idpathcache.go, and the walks of rclonefs.go: what the
--   Changes API and rclone answer is a parameter, a tree of listings for the walk. Remote/RootId is
--   rootid.go. Remote/Fs is the interface `RemoteFS` of remotefs.go, on the state of what implements
--   it; Remote/Rclone has the operations of rclonefs.go as trees of calls to rclone and the disk, its
--   Start the construction with oauthvalidate.go; Remote/MemFs is memfs.go, and Remote/Doubles
--   dryrunfs.go and flakyfs.go around any other.
-- - Watcher: watcher/debouncer.go with types.go, pairer.go and watcher.go with pathfilter/
--   pathfilter.go, as sequences of inputs: Watcher/Pairer is the pairer, Watcher/Loop what the loop
--   does with an event of fsnotify, Watcher/Run the inputs in their order. The answers of the file
--   system, of the clock and of the sync store during one input are a record `World`, and
--   `doublestar.Match` is a parameter.
-- - Quota: quota/quota.go, with the float64 arithmetic as a parameter.
-- - Control: http/, the control endpoint with its routes, authentication and handlers, over the record
--   `Deps` of what it controls; the address tests of Go's net package are a parameter.
-- - Config: config/config.go: `Load` with its defaults; `yaml.Unmarshal` is a parameter.
-- - Agent (homedrive/cmd/homedrive): Agent and Agent/Pump are agent_run.go with `relToRoot` of
--   adapters.go, Agent/Control is agent_control.go and fills `Deps`, Agent/Build is `newAgent` of
--   agent.go with the resources it holds open, Agent/Ctl the requests of ctl.go.
-- - Mqtt: mqtt/, as the list of what the client asks of paho.
--
-- Conventions. Times count nanoseconds from Go's zero time. Of an error only the sentinels are kept
-- that `errors.Is` finds in it. Audit lines and events keep the operation, the path and the flags,
-- not the time stamps; logging is left out, and the clock is read only where its value is stored or
-- compared. Local calls name paths relative to the local root, and paths are clean and relative. A
-- nil dereference is a panic. Limits that the code treats as off when they are not positive are 0.
-- The order of a map iteration is the order of a list. The loops of oldsuffix carry the bounds of the
-- source, 64 and 65,536, as fuel, and printing a number n in decimal takes n + 1 rounds at most. The
-- poll of the pages of changes has no bound in the source; it runs on fuel here, one unit for each
-- call, and returns once the server sends a last page.
--
-- Not modelled: the inside of rclone, of the Drive API and of bbolt, of paho and
-- of net/http, the audit file, the cobra commands, the start and the end of the goroutines with their
-- signals, and the timer loops, which are input and output; the adapters of adapters.go and the part
-- of store.go that only pass calls on.
pub mod Base
pub mod OldSuffix
pub mod Syncer
pub mod Quota
pub mod Watcher
pub mod Store
pub mod Remote
pub mod Control
pub mod Config
pub mod Agent
pub mod Mqtt
