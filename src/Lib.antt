-- ===== src/Lib.antt =====
-- A model of the Vectrify agent runner, the program that runs on a customer's machine, takes commands
-- over a websocket and runs them there, and updates itself.
--
-- The parts and how they interact. main.go loads the settings (config/), starts the client (client/),
-- which keeps a connection and hands every command to a goroutine of its own, where the runner (runner/)
-- dispatches it to the executors (executor/). It also starts the updater (updater/), which replaces the
-- binary when the client says that it is idle. The model has one tree of modules for each of them.
--
-- * Base and Base/: lists, byte strings, Go's maps as association lists with one pair to a key, lines of
--   a file, stable sorting, and the tests that the source makes of an `int` (Base/Int.antt: `int64` as an
--   integer, with its wrap-around where a product may overflow). Durations and clock readings are
--   nanoseconds in the natural numbers, and a difference of two readings is signed.
-- * Client/Classify.antt is client/classify.go. Client/Registry.antt is client/inflight.go: `try_acquire`
--   is one round of the loop of `acquire` under its mutex, `remove` is `remove`, and the channel that a
--   release closes is a number that it increases. Client/Snapshot.antt is the rest of that file:
--   `snapshot`, `checkStale` and the log helpers.
-- * Client/Waiters.antt and Client/System.antt are client/ws_client.go: `receive` is a turn of the read
--   loop of `connect`, `dispatch_one` is the goroutine of `dispatchOne` cut at each point where another
--   goroutine can run (an attempt for a slot, the wait, the release of the waiter, the removal, the touch
--   on the way out), and `step` interleaves them with commands and the clock. `Reach` are the states of
--   all runs; runs from a list of events are executable (`run`). A handler that does not return is a
--   goroutine that takes no step. `activity` is `Activity`, `drained` the test of `Drain`.
-- * Client/Reconnect.antt is `backoff` and `RunForever` of the same file.
-- * Config.antt is config/config.go: `apply_defaults` key by key, `load` with the YAML decoder, the
--   contents of the file and filepath.Abs as parameters. Config/RunnerKey.antt is `UpdateRunnerKey`.
-- * Startup.antt joins the settings and the client: the limits that `dispatchOne` passes on.
-- * Updater/Gate.antt is updater/options.go. Updater/Version.antt is `isNewer` of updater/updater.go.
--   Updater/Check.antt is `checkAndApply` of that file, with the failure counter of updater/release.go;
--   Updater/Apply.antt is the order of guards and effects in updater/apply_windows.go. Updater/Lock.antt is
--   updater/lock.go, with each call of the operating system as a step of its own, the release in `apply` and
--   the one in `checkAndApply` too. Updater/Watchdog.antt is
--   the loop of `runWatchdog` in updater/watchdog.go: a run is the list of what its calls answer.
--   Updater/Swap.antt is `swapBinary` and `restorePrevious` of updater/swap.go.
-- * Protocol.antt is protocol/messages.go. Runner.antt and Runner/ are runner/runner.go: `dispatch` is
--   `Dispatch` over a record of what the executors answer, and gives the messages sent. The same handler
--   of file operations on a disk is `handle_file_op` in Executor/FileOps.antt.
-- * Executor/Paths.antt is `guardPath` of executor/file_ops.go, which file_transfer.go repeats;
--   Executor/FileOps.antt is the rest of that file, with the functions on texts in
--   Executor/FileOps/Bytes.antt. Executor/Transfer.antt is executor/file_transfer.go: a body is the list of
--   what its reads bring. Executor/Shell.antt is `Run` of executor/shell.go: the loop takes the cases that
--   `select` chose. Executor/Processes.antt is executor/process.go: Start.antt has the steps of `Start`
--   between its locks and `waitForExit`; Stop.antt has `Stop`, `reapOnce` and `Shutdown` up to the end of
--   their locks, and the killing behind them (and behind a refused `Start`) as steps of their own;
--   Steps.antt interleaves them all. Listing.antt is `List`, and Logs.antt is `Logs`.
--
-- Bounds. No definition runs on fuel but for the digits of a line number, where it exceeds the number:
-- loops are recursion on the list that they read (the lines of a file, the entries of the registry, the
-- connections of a run), and the concurrent parts are step relations. Numbers that the source keeps in
-- an `int` stay far below its range, except the duration of `backoff` and the timeouts of
-- Runner/Timeouts.antt, whose wrap-around at 64 bits is written out.
--
-- What is not modelled. Sockets, HTTP, hashing, the service managers and the browser library are calls of
-- code that is not in the repository. The manager of browser sessions in executor/browser.go, the listing
-- of a directory and the argument builder of git, the rotation of logwriter.go and the rollback that a
-- watchdog decides on are not part of the model; whether a swap worked and whether a watchdog started are
-- arguments of the model of an update, which is the one on Windows (updater/apply_other.go leaves the
-- swap to a shell script that it writes). The disk of the file operations has no links, and what the system answers to
-- os.MkdirAll, os.WriteFile (which may break off) and os.Remove is an argument.
pub mod Base
pub mod Client
pub mod Config
pub mod Executor
pub mod Protocol
pub mod Runner
pub mod Startup
pub mod Updater
