-- ===== src/Lib.antt =====
-- bpfman loads eBPF programs, attaches them to hooks and keeps a record of both in a store. Its
-- manager runs every change as a plan of operations with a rollback, and shares an interface among
-- several XDP or TC programs by a dispatcher program, which it rebuilds on each attach and detach.
--
-- The parts and their files:
-- * manager/operation (node.go, run.go, types.go) is Operation: a plan is a list of `Node`, `Run` is
--   `run`, `interpret` and `executeRollback` are `interpret` and `execute_rollback`, `Build` is
--   `build`. The world, the actions and the executor are parameters.
-- * manager/executor_dispatcher.go is Slots (rebuildSlot, sortRebuildSlots, the new slot's position)
--   and Rebuild: the steps that the rebuilds share, with rebuildXDPDispatcher in Rebuild/Xdp,
--   rebuildTCDispatcher in Rebuild/Tc, rebuildDispatcherForDetach and its two rebuilds in
--   Rebuild/Detach, removeEmptyDispatcher and removeDispatcherIfEmpty in Rebuild/Empty.
--   Rebuild/Cleanup and Rebuild/Keeps hold what the shared steps do to the pins,
--   Rebuild/Unlabelled which labels they give to the store.
-- * dispatcher/ is Platform (types, keys), Dispatcher/Config (NewXDPConfig, NewTCConfig) and
--   Dispatcher/Mask (ProceedOnMask, ProceedOnActions). xdp_action.go and tc_action.go are Actions,
--   where the functions of `strings` that depend on Unicode are parameters.
-- * platform/dispatcher_types.go is Platform; link.go is Links; fs/bpffs_layout.go is Layout;
--   errors.go is Errors.
-- * internal/strdist/strdist.go is Distance (Levenshtein, on its two rows of cells) and Nearest;
--   manager/suggest.go is Nearest, too.
-- * manager/delete.go is Manager/Order (orderProgramDeletes) and Manager/Delete (the batches),
--   manager/detach.go is Manager/Detach, manager/unload.go is Manager/Unload, manager/lookup.go is
--   Manager/Lookup, manager/executor.go is Manager/Executor with the actions that these use. They
--   run on Manager/World: the trace of their calls, and beside it the log of the rebuilds that the
--   executor makes for them. Operation/InTurn says what the plans of a detach do.
-- * manager/load.go is Manager/Reap (the reaping of records whose programs left the kernel),
--   Programs/Load (requests and specifications) and Manager/Load (loadPlan, loadBody), with
--   inspect/mapset.go; the transactions of platform/store/sqlite/sqlite.go are Manager/Transaction.
--   load_spec.go and the program types of program.go are Programs.
-- * manager/attach_simple.go is Manager/Attach (simpleAttach and its plan) and
--   manager/attach_tracing.go Manager/Attach/Tracing; attachTCX and saveLinkNode are
--   Manager/Attach/Hook. The order of TCX programs, in manager/attach_tc.go, link.go and
--   platform/ebpf/attach_tc.go, is Tcx; what the kernel makes of an anchor is a parameter (`Place`).
-- * lock/lock.go is Lock: acquireWriter with its backoff, run with its frames, RunWithTimeout. What
--   flock, the contexts and the file system answer is a parameter (`LockEnv`).
-- * The kernel adapter, the store, the network namespaces and the file system are World: each call
--   is an event of a log, and an environment decides, from all that was called before, whether it
--   fails and what it returns. World/Pins says which pins a log leaves behind,
--   World/Triples holds the rules for what holds after a call or a sequence of steps, and
--   World/Adds those for what such a sequence adds to the log, however it ends.
--
-- Examples runs the model at concrete inputs.
--
-- Exec/Ends holds the rules for how a computation ends, in a result or in an error, and Exec/Total
-- those for a computation that never panics; Exec/Settled joins the two.
--
-- A function that may fail is an `Exec`: it takes the world to an outcome (a value, an error or a
-- panic) and the world. Loops over slices are structural recursion. Fixed-width numbers are ℕ with
-- the reduction written where the code can leave the width. Fuel stands in five places. The decimal
-- printing of a number in Layout divides by ten in each round, so `suc n` rounds are enough.
-- In Manager/Order it bounds the depth of the visits, which is at most the number of ids. In
-- Manager/Delete it bounds the depth of the recursion over dependents: any fuel above the height of
-- a program in the map of dependents is enough, and where that map has a cycle the code's own
-- recursion does not end. In Lock it bounds the rounds of acquireWriter: any fuel above the first
-- round that decides it is enough, and the code's loop need not end where none does. In
-- Manager/Reap it bounds the passes over the dead records: each but the last plans one more of them,
-- so one pass more than their number is enough. The order
-- in which a range visits a map's keys is a parameter.
--
-- Not modelled: logging, the cancellation of contexts outside the lock, the SQL of the store, the
-- system calls themselves, creation times, the text of formatted messages, the lists of removed ids
-- that a deletion discards, the steps of ListPrograms and of the transactions that a rebuild makes,
-- which are one call each, the provenance that is published with a program's bytecode, the choice of the
-- lock and of the source of a load, and the components that the files do not name.
pub mod Prelude
pub mod Errors
pub mod Exec
pub mod Operation
pub mod Platform
pub mod Slots
pub mod Actions
pub mod Dispatcher
pub mod Layout
pub mod Links
pub mod Programs
pub mod Tcx
pub mod World
pub mod Distance
pub mod Nearest
pub mod Rebuild
pub mod Manager
pub mod Lock
mod Examples
