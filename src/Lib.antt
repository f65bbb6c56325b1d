-- ===== src/Lib.antt =====
-- sion-backup: a program that backs up a computer with restic, keeps itself up to date, and
-- reports to a fleet server.
--
-- This library models the parts that decide: when a backup is due, what the outcome of a run was,
-- what may be stored as a plan, when a fresh bucket is called for, and how the program replaces
-- its own binary and goes back when the new one does not stay up.
--
-- The parts and how they interact. The daemon (cmd/sion-backup/daemon.go) asks the plan
-- (business/domain/plan/planbus) whether a backup is due; a run (business/domain/backup/backupbus)
-- calls restic (foundation/restic), reads its verification file back and records an outcome. The
-- plan's own record, the measurement of the repository, the last integrity check and the server's
-- last answer stand in one store (business/domain/plan/stores/plandb). At every start the program
-- counts the starts of a version on probation (foundation/selfupdate/probation.go), and on a timer
-- Apply (foundation/selfupdate/selfupdate.go) swaps in a newer release. Enrolling (cmd/sion-backup/enroll.go)
-- trades a code for the token and the first plan; the status page (app/domain/statusapp) changes the plan,
-- confirms it and words the last run; reports of the program's own failures wait in a directory
-- (business/domain/diag) until the server takes them.
--
-- The files.
--  - Prelude: shared names; Prelude/Text the functions of Go's strings and strconv on lists of
--    code points; Prelude/Time time.Time and time.Duration; Prelude/Int the int64 values;
--    Prelude/Result errors; Prelude/Digits the
--    printing of numbers.
--  - SelfUpdate/Disk: the files beside the binary and the calls of package os; Version: parse and
--    Newer; Swap: swap and the renames of rollBack; Refused: Refused, refuses, refuse, Forget;
--    Probation: begin, read, write, Start, rollBack, Settle; Apply: Writable, download, Apply.
--    Their child modules hold the proofs.
--  - Plan/Schedule: Schedule.Validate, jitter, slotsOn, lastSlotAtOrBefore, Due and Next, with the
--    presets in Schedule/Presets; Record: Plan, Validate, Runnable; Measurement, Integrity,
--    Rotation, Machine: the files of those names, MachineState being in rotation.go; Store: what
--    plandb gives back of what was written; Business: the operations of Business.
--  - Restic: classify, vssRefused, Backup and the result of backupOnce; Restic/Command: Repository,
--    its Validate and Env, and backupArgs; Restic/Messages: parseBackup and mergeErrors;
--    Restic/Ops: run, Exists, Init, Ensure, Restore, Check and Unlock (restic.go, ops.go); Restic/Managed:
--    EnsurePinned, install and swap of manage.go.
--  - Credentials: the set of a run and ForRun of business/domain/credential/credentialbus.
--  - Disclosure: the check of business/domain/disclosure/disclosurebus and its split;
--    Disclosure/Reading: Read and Glance; Disclosure/Store: the table of disclosuredb.
--  - Backup/Run: Run and Outcome; Backup/Execute: execute, verify, cancelled and unreadableLine;
--    Backup/Store: the run table of business/domain/backup/stores/backupdb; Backup/Runner: Run,
--    RecordFailedStart and Seeding.
--  - Fleet: Flush of business/domain/fleet/fleetbus, and the round of the daemon that applies it to
--    the run history.
--  - Daemon: maybeRun of cmd/sion-backup/daemon.go; Daemon/Opening: openRepository of
--    cmd/sion-backup/rotate.go; Daemon/Checking: checkRepository; Daemon/Updating:
--    selfUpdate of update.go; Daemon/Attempt: runBackup and backup, which compose the parts above.
--  - Loopback: the guard of the status page, app/sdk/loopback; Loopback/Hosts and Guarding its proofs.
--  - Survey: the sizes and the upload speed of business/domain/survey/surveybus; Survey/Steps: its
--    sections in any order; Survey/Shapes: the keys of the figures.
--  - Server: what the server says and is asked, business/domain/machine/machinebus; Daemon/Polling:
--    pollState of rotate.go.
--  - Survey/Junk and Survey/Folders: junk.go, folders.go and roots.go beside it, and StyleOf.
--  - Token: foundation/token/token.go. Enrolling: Claim of
--    business/domain/credential/sources/eumaeuscreds/claim.go with enroll.go of cmd/sion-backup;
--    Enrolling/Recovering: recover.go.
--  - Diag: Record, Scrub, Flush and Waiting of business/domain/diag/diagbus, over any queue;
--    Diag/Files: the queue of business/domain/diag/stores/diagfile, with Stamp for
--    the time in a name; Order, Stamped and Newest its proofs.
--  - StatusPage: the set-up form and the settings form of app/domain/statusapp (setup.go,
--    statusapp.go); StatusPage/Verdict: verdictFor and pill, and
--    Green what stands behind it; StatusPage/Words: humanBytes and
--    humanDuration.
--  - Stub: the table of repositories of the server that the end-to-end tests run,
--    scripts/backup-e2e/eumaeusstub (rotation.go, main.go); Stub/Calls: its handlers; Rows what may
--    become of a row; Releasing when the bucket before it is let go of; Creating puts it before the
--    openRepository of the daemon.
--  - Tests: runs at concrete inputs.
--
-- How state and failure are modelled. The disk of the self-update is a record of four binaries and
-- two small files, passed from call to call; a record of faults says which renames, removals and
-- writes the operating system refuses, and a write can also be broken off. The plan's store is a
-- record, with a record of the calls that fail. The run history is the list of its rows, newest
-- first, with the next id. A run is a record that execute fills in; what
-- restic, the file system and the person do during it is a record argument. For the other calls of
-- restic the binary is a function from its arguments and a state of the world to the next state and
-- its end. The server that a code is claimed from is a state with a function that answers, and so is the sink
-- of the reports; the directory of the reports is the list of its entries, in the order of their names.
-- A queue of reports is an interface, a record of three operations, which the directory fills. The table
-- of the test server is a list, a row of which is named by its place. The calendar of a
-- location, package filepath and the float64 operations are records of functions, so the theorems hold for every one
-- of them.
--
-- Numbers. Times are nanoseconds since year 1 and do not wrap; a difference of times stops at the
-- largest int64, as Go's does; the counts of the disclosure log are not negative; the hash of the jitter is kept modulo 2^64; other counts are
-- integers without a bound. The loops are recursions on
-- the lists they walk, and the search for the last slot counts down its four days. Three loops
-- run on fuel: the printing of a number n takes one digit a round, and n + 1 rounds are enough, as
-- Prelude/Digits shows by reading the digits back; the search for home folders in a text takes at least one
-- character a round, and has a round for each; the loop that picks the unit of a size has six rounds,
-- enough for an int64, which is below 1024 to the seventh power.
--
-- Not modelled: HTTP, SQL, JSON, HTML and the printing of the command line; the adoption of older installs,
-- the doctor and the reconnaissance (adopt.go, doctor.go, recon.go of cmd/sion-backup) with the scan for
-- older installs; the pages for rotation, card, access and program; that secrets are overwritten after use; the probe file that Writable could leave
-- behind; the texts of error messages, which stand as constructors with what is put into them; log
-- lines; the running of two copies of the program at once.
pub mod Prelude
pub mod Server
pub mod Survey
pub mod SelfUpdate
pub mod Plan
pub mod Stub
pub mod Diag
pub mod Token
pub mod Enrolling
pub mod StatusPage
mod Tests
pub mod Restic
pub mod Backup
pub mod Fleet
pub mod Loopback
pub mod Daemon
pub mod Disclosure
pub mod Credentials
