-- ===== src/Lib.antt =====
-- Gash is a shell that runs scripts against virtual filesystems, under limits, without touching
-- the host. This library models the part of it that keeps state: the filesystems of pkg/fs and the
-- scopes, jobs, traps and limits of pkg/gash.
--
-- How the parts interact. A script names files by shell paths. `Resolve`
-- (internal/commandutil/context.go) makes them absolute, the calls of pkg/fs/capabilities.go turn
-- them into root-relative names by `Name`, answer for /dev/null, and reach a filesystem through
-- the capabilities it has. A filesystem may be the in-memory one (pkg/fs/memory.go), or the
-- namespace that combines several (pkg/fs/mount.go, mount_write.go), or the overlay of one that is
-- written on one that is only read (pkg/fs/overlay.go). An execution has a scope
-- (pkg/gash/limits.go) that charges commands and input against its limits and holds the traps,
-- a budget for its output, and background jobs (pkg/gash/jobs.go); kill and trap
-- (pkg/gash/signals.go) reach both. A command that uses the network asks the policy of
-- pkg/network/policy.go for each request and redirect, and dials through it.
--
-- Files and the code they model:
--   Prelude, Prelude/*     Boolean tests, lists over the native numbers, Go strings as lists of
--                          numbers, strconv.Itoa and Atoi, signed integers.
--   Assoc                  Go maps with string keys.
--   Path, Path/*           `Name` (fs_name), `valid` (is_valid), `parent`, `Resolve` (resolve), and
--                          the functions of `path` and `strings` they call (Path/Lexical). Texts
--                          are lists of code points: paths are valid UTF-8.
--   Memory/Node            node, Memory, NewMemory. Pointers are indices into a heap, so that hard
--                          links share a node; `alloc`, `over_quota` and `release` are the steps
--                          that several operations repeat.
--   Memory/Resolve         resolveLocked. Its loop, for links from 0 to 40, is `resolve_loop`, by
--                          recursion on the rounds left, which is the code's own bound.
--   Memory/Write           CreateFile, WriteFile, AppendFile, Mkdir, Symlink.
--   Memory/Names           Remove, RemoveAll, Rename, Link, MkdirAll, Chmod, Chtimes.
--   Memory/Read            ReadFile, Stat, Lstat, Readlink, ReadDir, Open and memFile.
--   Memory/History         the operations as data, and histories of them.
--   Memory/*, Memory/Quota/*   lemmas and theorems on these.
--   Mount                  Mountable: Mount, Unmount, route, childMounts, ReadFile, Stat, Lstat,
--                          ReadDir. FileSystem is a record of the capability interfaces of
--                          pkg/fs/capabilities.go; the filesystems are parameters, all over one
--                          state, so that two mounts may be the same filesystem.
--   Mount/Write            the operations of mount_write.go; Rename up to where it copies.
--   Mount/Route, Mount/Points, Mount/Laws, Mount/Busy    lemmas and theorems on these.
--   Capabilities           the functions of pkg/fs/capabilities.go (ReadFile to Chtimes).
--   Overlay                Overlay of pkg/fs/overlay.go: the two layers, each a filesystem and its
--                          state, the lower one fixed; the errors, and what errors.Is says of them.
--   Overlay/Names, View, Listing, Dirs    the markers; ReadFile, Stat, Lstat; ReadDir; walkDirs,
--                          setWhiteout, clearWhiteout, clearMarkers.
--   Overlay/CopyUp, Write, Removal    copyUp and copyUpTree (to a depth, which the tree's own
--                          bounds); CreateFile to Chtimes; Remove, RemoveAll and Rename.
--   Overlay/Keeps, Markers, Hidden, Absent, Removed, Opaque, Written, Laws    lemmas and theorems
--                          on these; Hidden and Written hold the laws that the upper layer keeps
--                          while it is in good order.
--   Overlay/MemoryLayer, MemoryUpper, OverMemory    the methods of Memory as the upper layer, while
--                          its nodes make a tree without links (Memory/Tree*). Overlay/Flat is a
--                          flat filesystem for runs.
--   Network, Network/Address, Network/Dial    Policy of pkg/network/policy.go: Check, ruleAllows,
--                          pathAllowed and the other tests, redirectChecker; isPublicIP;
--                          dialContext. What net/url makes of a URL is a record, the connection a
--                          parameter.
--   Network/Paths, Network/Laws    lemmas and theorems on these.
--   Limits/Profile         Limits, the profiles, resolveLimits.
--   Limits/Scope           executionScope: chargeCommand, consumeInput, setTrap, trap.
--   Limits/Budget          outputBudget.take, as steps of concurrent writers; Limits/Granted and
--                          Limits/Alone hold the lemmas and theorems on it.
--   Jobs, Jobs/Kept, Jobs/History    jobState and virtualJob: allocateJob, startJob and the end
--                          of its goroutine, signalJob, selectedJobs, runWaitJob, runJobs; each body
--                          that holds the lock is one step, and a history is a list of steps. A
--                          channel that is closed twice sets `crashed`.
--   Signals, Signals/Laws  normalizeVirtualSignal, normalizeTrapSignal, observeExitTrap,
--                          runVirtualTrap, runVirtualKill.
--   Arithmetic             parseStaticBaseNumber, parseBashBaseDigits, bashDigitValue.
--   Umask, Umask/*         internal/commands/umask.go.
--   Expr, Expr/Operators, Expr/Word, Expr/*    internal/commands/expr.go: the parser that evaluates,
--                          over the arguments left; an int64 is a number below 2 ^ 64 in two's
--                          complement. The fuel of a loop is one more than the arguments left,
--                          of which each round takes two, and the depth one more than all
--                          arguments.
--   Factor, Factor/*       internal/commands/utilities/factor.go. The inner loop has the number as
--                          fuel, which each round halves at least, and the outer loop too, which
--                          ends before the divisor passes the root of the number.
--   Text/Comm, Text/Uniq   internal/commands/text/comm.go and uniq.go; Text/Grouping holds the
--                          lemmas and theorems on uniq.
--   */Samples              tests and instances on concrete inputs.
--
-- Conventions. A state is a record; an operation returns the error, if any, and the state after
-- it. A test for nil is `on_option`. `panic` is the error of a nil pointer that is dereferenced.
-- time.Now() is an argument. Sizes and counters (int64) are natural numbers: the totals that the
-- limits allow are far below 2 ^ 63; where overflow is the code's own concern, in Arithmetic and
-- Expr, it is written out. A loop that the length of its input bounds is structural recursion. The
-- recursion of `itoa` has the number itself as fuel, enough for its digits, and the loops of
-- comm and uniq the number of their lines, of which each round takes one at least.
--
-- Not modelled: the interpreter (mvdan.cc/sh) and the rewriting of its syntax trees; the
-- rooted, read-only and database filesystems; the copy of Mountable.Rename between
-- filesystems (copyAcross), Mounts, and Mountable.Open and Overlay.Open with their file wrappers;
-- the execution of a job or trap, which the models leave to the caller; the printing of messages;
-- the commands other than those named, which are argument handling, formats, or interpreters; the
-- programs of cmd and web.
pub mod Prelude
pub mod Path
pub mod Assoc
pub mod Memory
pub mod Limits
pub mod Jobs
pub mod Signals
pub mod Mount
pub mod Capabilities
pub mod Arithmetic
pub mod Umask
pub mod Text
pub mod Overlay
pub mod Network
pub mod Factor
pub mod Expr
