-- ===== src/Lib.antt =====
-- img builds, pushes, pulls, tags, lists and removes container images without a daemon and without
-- root. It is one process: `main` (main.go) chooses a command and checks the backend; if the process is
-- not in a user namespace it starts itself again in one (reexec.go) and ends with its child's status;
-- it installs an embedded runc if the host has none (internal/binutils/binutils.go); then the command
-- runs. Each command makes one client (client/client.go), which puts a BuildKit worker together
-- (client/workeropt.go) and works on containerd's image store in the state directory.
--
-- The modules and the code, by paths from the repository's root:
--   Common       Exec: the ways to leave a Go function, and the state passed on. Triple: what holds
--                after an action. Group: golang.org/x/sync/errgroup. Text, FilePath, Int, Output: the
--                parts of Go's library that the program computes with.
--   Services     all that the program calls and does not implement, a parameter of everything below.
--                Services/Laws, Services/Solving/Laws, Services/Scratch: the documented behaviour that
--                the theorems on the image store, on the solver and on temporary files need.
--                Services/Up: services that answer, for the theorems that a command succeeds.
--   Backend      types/types.go
--   Client       client/client.go, client/session.go. Client/Worker: client/workeropt.go.
--                Client/Controller: client/controller.go and client/diskusage.go. Client/Images: tag,
--                remove, push, pull and save of client/. Client/Images/Listing: client/list.go.
--                Client/Sessions: what the calls around a session leave. Client/Silent: what prints
--                nothing. Client/Picked: the backend that `New` resolves.
--                Client/Solve: client/solve.go, over Services/Solving.
--   Flag         Go's flag.FlagSet.Parse as main.go uses it.
--   Command      tag.go, remove.go, save.go, list.go, diskusage.go, version.go, push.go, pull.go,
--                one child for each. Command/Listing/Table and Command/Usage/Table: the lines of
--                `img ls` and of `img du`. Command/Tag/Total, Command/Remove/Total: when they succeed.
--                Command/Save/Exports: what `img save` exports.
--   Build        build.go. Build/Stdin: the Dockerfile and the context from standard input.
--                Build/Progress: `showProgress` where there is no console; Build/Told: what it should
--                print.
--                Build/Status: `showProgress` where there is one.
--                Build/Shown: `showProgress` once the channel is closed.
--                Build/Channel: the channel between `Solve` and `showProgress`, as a step relation.
--                Build/Untar: `untar`. Build/Run: `Run` up to the solver.
--                Build/Cleanup: what was read from standard input, after `Run`. Build/Unread: an
--                archive there that cannot be read.
--                Build/Solver: `Run` with the session and the goroutines around the solver.
--   Login        login.go, over Services/Accounts, what it calls.
--   Binutils     internal/binutils/binutils.go. Binutils/Installed: PATH and the files behind it.
--   Reexec       reexec.go: its two goroutines take turns at their calls. Reexec/Interrupted: a signal
--                that comes while the program polls for its child, Reexec/Early: one that comes before
--                the child's group is known. Reexec/Signals: the goroutines as a
--                step relation. Reexec/Refined: what `reexec` does is what that relation does, over
--                what a host shows of the child (Reexec/Observed), by way of Reexec/Following (what
--                it is to follow a run), Reexec/Simulated (the signal's turns), Reexec/Polling (the
--                loop) and Reexec/Starting.
--   Main         main.go. Main/Interface: the interface `command`, the flags and their usage text.
--                Main/Commands: the ten commands, and the whole program. Main/Whole:
--                what `main` adds to a command, for Main/Tagging, Main/Removing, Main/Pulling and
--                Main/Pushing; Main/Runc: the same for a command that needs runc, for
--                Main/Building. Main/Light: the same for a command that needs none, at any command
--                line that parses, for Main/Printing (`img ls`, `img du`), Main/LoggingIn,
--                Main/Saving and Main/Succeeding. Main/CommandLine and Main/Words: command lines, and
--                what the flags make of them. Main/Refusing: an unknown command, and an odd backend.
--                Main/Dispatch: the directory of the embedded runc. Main/Child and Main/Interrupted:
--                `main` around the re-execution.
--   Fixture      a host in memory, which meets the laws; Examples applies the theorems to it.
--
-- State is `State W`: the client object, the lines printed, the log level, what was sent over the
-- channel of `img build`, and the host `W`, which is abstract. An
-- operation is a function from a state to an outcome (a value, an error, the end of the process, a
-- panic, or no end within the fuel) and the state after it: what was changed before an error stays
-- changed. Errors keep the format and the cause that the code gives them.
--
-- Numbers: sizes are int64 with the wrap-around written out. Fuel bounds two loops, the one over
-- Wait4 in reexec.go and the one over the entries of an archive in build.go; running out of it is
-- the outcome `diverge`, apart from all others. Two more than the idle polls are enough for the first,
-- and one more than what is left of the stream for the second.
--
-- Not modelled: the panic of the flag package where a name is registered twice; vendor/ and the C code of internal/unshare, which are parameters; the layout of tables
-- by text/tabwriter; the message for an error of the garbage collector. Where two
-- goroutines run, each is one step and a schedule says which returns first; in reexec.go each call is
-- one, and an argument says when the signal comes and when the process ends behind it. The channel of
-- `img build` and the signals of reexec.go are step relations too, with any order of the turns. The timer
-- of client/solve.go is a step without a length of time.
pub mod Common
pub mod Services
pub mod Backend
pub mod Client
pub mod Flag
pub mod Binutils
pub mod Reexec
pub mod Command
pub mod Build
pub mod Fixture
pub mod Login
pub mod Main
mod Examples
