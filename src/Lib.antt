-- ===== src/Lib.antt =====
-- Avahi Manager: a web interface for the configuration of an Avahi daemon. An unprivileged web
-- process (cmd/avahi-manager/serve.go, internal/api) talks to a helper with root's rights
-- (cmd/avahi-manager/helper.go, internal/helper), which alone writes the files of the daemon
-- (internal/config) and asks systemd to reload or restart it (internal/systemd).
--
-- The files of this library and the code they model:
--   Prelude                 shared helpers: tests, lists, strings as bytes, sorted maps
--   Config.Path             `validPath`, `validSnapshotID` of internal/config/store.go, with the
--                           functions of Go's package `path` they call
--   Config.Image            `File`, `Image`, `Manifest`, `Revision`, `ValidateImage` of store.go,
--                           `ChangeAction` of apply.go
--   Config.World            the machine: the two directories, a clock, requests to the runtime
--                           controller, and a schedule with an item for each system call
--   Config.World.Runs       the logic of runs that the proofs use
--   Config.Disk             `readFile`, `read`, `stage` of store.go, `replace` of apply.go
--   Config.Vault            `snapshot`, `loadSnapshot`, `snapshots`, `DeleteSnapshot` of store.go,
--                           `prune` of apply.go, the baseline pointer of baseline.go
--   Config.Transaction      `Apply`, `apply`, `Restore`, `Recover` of apply.go, `Snapshot` of
--                           store.go, `Baseline`, `AcceptDisk` of baseline.go
--   Config.Samples          a small machine and runs on it
--   Config.Examples         the theorems at that machine
--                           Config/World/Does is the logic of runs without a failure; Restarting and
--                           Refinement in Config/Transaction are about the next start of the process
--   Auth                    `allow`, `CreateAdmin`, `Login`, `Session`, `Logout` of
--                           internal/auth/auth.go, with their proofs below it
--   Api                     `security` and `audit` of internal/api/server.go
--                           Api/Routes: `mutate`, `configuration` and `hostsChange` of routes.go
--   Database                the jobs and the drift of managed files of internal/database/sqlite.go
--   Systemd                 `job`, `Control` and `Controller.Apply` of internal/systemd/manager.go
--   Avahi                   the table of services of internal/avahi/browser.go and the rounds of
--                           `browse`; `Identity` and `Service` of client.go
--   Files                   host names, internal/config/hosts.go, daemon.go and service.go: parsers,
--                           checks, printers; XML is a parameter, the loop over its tokens is not
--   Helper                  the writes of `Backend` of internal/helper/protocol.go; Helper/Server:
--                           the peer check, the calls and `Serve` of server.go; Helper/Model:
--                           `model` and `Backend.Configuration`, on top of the parsers of Files
--   Detect                  `Classify` of internal/detect/detect.go
--   Journal                 `Arguments`, `cappedBuffer` and the end of `run` of
--                           internal/journal/reader.go
--   Network                 `Enabled` of internal/network/interfaces.go
--   The module Examples of each part has its theorems at concrete values.
--
-- How the state corresponds to the code: `Disk` is the configuration directory (`Store.root`),
-- a map from names to files with their permissions and owners; `Vault` is the backup directory
-- (`Store.backups`): snapshot directories, `pending.json` and `baseline.json`. A function of the
-- code is a function from a `World` to a result and a `World`; its errors are values of `Error`,
-- and `crash` is the stop of the process, after which no deferred call runs. Each system call
-- takes the next item of the schedule: it succeeds, fails with or without its effect, or stops
-- the process with or without its effect.
--
-- The other parts are functions on their own state: the tables of the database as lists of rows,
-- the bus as a list of answers, the rounds of `browse` as a function on events, and the handlers
-- behind `audit` and `security` as a parameter. The loops run along lists. Fuel is used for
-- `strings.TrimSpace`, where it is the length of the text and every round drops a byte, and for
-- the digits of a number, where it is the number and every round divides it.
--
-- Not modelled: the temporary files of `stage`, which no operation reads; power failures that
-- lose synced writes; changes of the directories by other programs during an operation (the
-- writer lock excludes a second helper); JSON texts, which are the values they decode to, save that
-- the names in a manifest come back with wrong UTF-8 replaced and that a manifest whose text, a
-- field of `Env`, is above the limit of `readFile` does not come back; SHA-256 and the identity
-- of the process, which are fields of `Env` too; `netip.ParseAddr` and
-- `encoding/xml`, which are parameters of the parsers; and the texts of errors. The checks of the
-- three kinds of files are fields of `Env` as well, and `with_checks` of Helper/Model fills them
-- with the parsers of Files. The opening of the store and its lock, password hashing, the watcher,
-- the streams of events and logs, and the start and end of the process have no module: they are
-- mostly calls of the operating system and of libraries.
pub mod Api
pub mod Auth
pub mod Avahi
pub mod Config
pub mod Database
pub mod Detect
pub mod Files
pub mod Helper
pub mod Journal
pub mod Network
pub mod Prelude
pub mod Systemd
