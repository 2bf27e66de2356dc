-- ===== src/Lib.antt =====
-- A model of tentacles, a daemon that keeps a number of self-hosted CI runners alive on one host. A
-- listener receives from the CI service how many runners are wanted and which runner has claimed or
-- completed a job; the reconciler and the scheduler turn the wanted count into calls of a pool's slot
-- table; the table starts, stops and cleans up runner slots through a backend.
--
-- The files and the code that they model:
--   Base and its children      shared helpers: Boolean tests on numbers, lists, bytes, sorting, integers of
--                              64 bits, lines and fields of text, and the operations on float64, which are
--                              a parameter
--   Slot                       internal/slot/slot.go: the data of a slot
--   UnitName                   internal/slot/manager.go: slot IDs and unit names as text
--   Table                      internal/slot/manager.go: the state of a table; under it
--     Claim, Clean, Exit       Claim, MarkBusy, MarkResult; clean, wipe, retryCleanup; ObserveExit
--     Surplus, Start, Ensure   stopSurplusContext; startOne; Ensure and Shutdown
--     Adopt, Watch, Sample     Adopt; watch; sampleLoop
--     Steps                    the sections under the table's mutex as a step relation
--     Invariant, Runs          an invariant of all sections, and the operations as runs of them
--   Reconcile                  internal/reconcile/reconcile.go: Clamp and Reconcile
--   Schedule                   internal/app/scheduler.go: reconcilePools over an interface of pools; under
--                              it Host, which fills the interface with slot tables, and nextRetryWait
--   Pool                       internal/app/pool.go: hints of queued jobs, back-off, callbacks;
--                              Pool/Admission is admissionGate of internal/app/scheduler.go
--   History                    internal/history/history.go: the usage history and its predictions; under it
--                              File, the file as its bytes, with JSON as the parameter Codec
--   Env                        internal/env/env.go: the environment file and its layering
--   FilePath                   what the source uses of the standard library's path/filepath
--   Config                     internal/config/config.go: the configuration and the directories of a pool;
--                              under it
--     Names, PoolCheck,        Validate, by the parts that it checks
--     JobHome, Check
--     Defaults                 internal/config/load.go: Load with its defaults
--     Dirs                     EnsureDirs
--   Daemon                     internal/app/app.go; under it
--     Boot                     Run and newDaemonContext, with the keys and URLs of the pools' clients
--     Start                    the start of run: scale sets, boot adoption, notifyReady
--     Loop                     the main loop of run with its retry timer; shutdownSlots
--     Listener                 runPoolListener
--   Backend                    internal/systemd/backend.go: which units a pool owns; under it
--     Query                    isActive, Wait, Active and Usage over the text that systemctl prints
--     Start                    New, and the arguments for systemd-run; internal/runner/cmd.go: its scripts
--     Launch                   Start and Stop
--   ScaleSet                   internal/scaleset/adapter.go: messages as events of a pool
--   Retention                  internal/logship/retention.go: pruning; sanitize of logship.go
--
-- How they interact. Run of Daemon/Boot loads and checks a configuration and makes a pool of each that it
-- names; Daemon/Start gives each pool a table and adopts the units that a backend lists; Daemon/Loop drives
-- the scheduler. dispatch of ScaleSet hands a message to on_event of Pool, which claims jobs in the
-- pool's table. The scheduler drives the pools through the record Pools; host_pools fills it with ensure
-- of Table, whose acquire failures go to the pool's back-off. PoolsLaws is what the scheduler relies on.
-- Completions of a table become records of History, whose predictions the admission gate charges.
--
-- State. A table is the record Table. The Go map from IDs to records is a list of records in the order
-- in which an iteration over the map meets them, which is any order; a theorem about two iterations takes
-- a list in another order for the second. Pointers to records are addresses (the field ref). An ID is the
-- number that its four digits spell. Calls of hooks and of the backend are kept in a list of effects. Times
-- are numbers, and `none` is Go's zero time.
--
-- Concurrency. The goroutines of the listener, of the watchers, of the cleanup workers and of the
-- sampler interleave with the holder of the operation lock at the sections under the mutex. Every
-- section is a constructor of Step; Reach is any sequence of them. The operations themselves are
-- functions over the answers of their outside calls: the file system, the backend, the clock, the
-- contexts and, during a launch, the listener's messages. In Daemon/Loop a wake-up of the main loop is
-- one step, and the listeners' events, the exits, the ends of cleanup workers that their callers no longer
-- wait for, the ticks of the samplers and the nudges are steps between wake-ups. The hook of a table, which
-- backs a pool off and nudges, runs at each of these steps for the events that the step has added.
--
-- Bounds. The loop of Ensure is recursion on a number of rounds; the number that ensure uses, the
-- missing slots, is enough, since each round adds a live slot or is the last. Slot IDs go from 1 to
-- 9999. Counts are the native numbers: the configuration refuses negative ones, and none comes near a
-- machine bound. The configuration has integers, since Validate is what refuses the negative ones; the sum
-- of the pools' min_runners wraps at 64 bits as the code's does, and a theorem about it asks for at most
-- 2 ^ 57 pools.
-- The second loop of reconcilePools is recursion on rounds_for many rounds; each start or full turn without
-- one uses some up. Memory sums in the admission gate wrap at 2 ^ 64. Numbers in the output of systemctl
-- are refused from 2 ^ 64 on, and from 2 ^ 63 on where the code reads a signed one.
--
-- Not modelled: logs, metrics and the texts of errors; the commands that the systemd backend runs, which
-- answer through a record, as do the file system, the lookup of users and the decoders of YAML and JSON; the process
-- backend, the payload download, the copying of diagnostics, the notification socket and the client of the
-- scale set, which are input and output or calls of other packages for the most part. How a duration is
-- printed in seconds is a parameter of the start arguments. The slot table sees the backends only
-- through the answers of its calls. Waits that change no state are left out. Texts are ASCII where the
-- source trims or splits at white space.
pub mod Backend
pub mod Base
pub mod Config
pub mod Daemon
pub mod Env
pub mod FilePath
pub mod History
pub mod Pool
pub mod Reconcile
pub mod Retention
pub mod ScaleSet
pub mod Schedule
pub mod Slot
pub mod Table
pub mod UnitName
