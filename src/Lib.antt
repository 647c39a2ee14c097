-- ===== src/Lib.antt =====
-- A model of mongodb-backup-s3, which dumps a MongoDB replica set or single databases into bundles,
-- uploads these to S3, deletes the old ones, and restores from them.
--
-- The program (cmd/mongodb-backup-s3/main.go) reads its configuration, builds the client of the
-- store, and runs one command. A backup run (internal/backup/app.go, Backup) checks the
-- configuration, takes a lock, asks the server for its databases, and for each selected one streams
-- a bundle through gpg into an upload. A backup that succeeds is followed by the retention of its
-- database. A restore picks an object by its key, downloads it and checks the whole bundle before
-- anything is imported; an extraction writes the configuration of a checked bundle to a directory.
--
-- Base          the types, lists, errors and byte strings that all parts share. A Go string is the list
--               of its bytes, an error is a value of Error, and a pair (T, error) is a Result T
-- Clock         times and their format, of the package time: an instant counts nanoseconds from the
--               year 1, so that the zero instant is the zero time
-- Decimal, Url  strconv.Atoi and net/url, as far as the configuration needs them
-- Config        internal/backup/config.go: the record Config; Config.Load is loadConfig, Config.Uri
--               validateURI and mongoURIOptions, Config.Validate validateBackup, Config.Databases
--               parseDatabaseList and validateDatabases
-- Keys          the rest of config.go: encodeComponent, the object keys and the two patterns
-- Secrets       internal/backup/secrets.go: newSecretWriter, and Write, emit and Flush
-- World         what the program meets outside: context, clock, lock file, store, the driver of the
--               server, tools, files and archives. It is a record of operations on an unknown state, an
--               argument of all that runs; run_tool is runInput of process.go with commandError
-- Trace         the events of a run: uploads, deletions, imports, files written, and messages
-- Process       internal/backup/process.go: acquireLock, childEnvironment, and what command sets up;
--               Process.Pipeline is pipeline
-- Mongo         internal/backup/mongo.go: NewSource, Inspect, Databases, Close and metadataError
-- Databases     app.go: the selection of databases
-- Members       bundle.go: safeMember and allowedMember, with path.Clean and filepath.Join
-- Bundle        bundle.go: the manifest; Bundle.Write is writeBundle, Bundle.Validate validateBundle
-- Capture       internal/backup/capture.go: Capture.Files is captureConfigFile, Capture.Directory
--               captureConfig, on the answers of the operating system
-- Retention     app.go: timestampBackups and removeOldBackups
-- Backup        app.go: Backup, backupDatabase, produceEncrypted and withRunner
-- Pipes         app.go: the goroutines of backupDatabase and produceEncrypted, with and without gpg,
--               as moves on a state in any order
-- RestoreArgs   restore.go: validateRestore
-- Restore       restore.go: withBundle, restore, RestoreAuth, restoreArchive
-- Extract       restore.go: ExtractConfig; bundle.go: extractConfiguration and copyMember
-- Storage       internal/storage/s3.go: New; Storage.Transfer is VersioningEnabled, Download, Delete, and
--               Upload and UploadPart of internal/storage/upload.go; Storage.Idle is
--               internal/storage/http.go
-- Listing       s3.go: List, the pages of a listing
-- Schedule      app.go: Run; the package cron is a parameter
-- Program       cmd/mongodb-backup-s3/main.go: run
-- Tests         a small site, with runs on it and examples of the theorems
--
-- SHA-256 and the JSON of manifests are the record Formats, an argument of the bundle's functions;
-- of JSON it is asked that a written manifest reads back with its files in some order and its
-- strings as they are, if they are UTF-8. All recursions are structural, and the only fuel is that
-- of high_digits in Clock, which is given as many rounds as the number itself. In Backup a bundle
-- is made, and gpg has run over it if there is a passphrase, before it is uploaded; the upload gets
-- what there is to read and the way in which its making ended. The interleavings of the goroutines
-- are in Pipes, where a state is bounded by the chunks of the bundle, of which the pipe of the
-- system holds 16, and runs need no fuel. Scheduled backups run one after the other. The number of
-- a signal is read off the state at the end of the program.
--
-- Not modelled: the dialer that wraps its connections, and the transfer manager of the SDK. A walk
-- of captureConfig lists its paths before the callback looks at them.
pub mod Base
pub mod Clock
pub mod Config
pub mod Keys
pub mod Decimal
pub mod Url
pub mod World
pub mod Databases
pub mod Members
pub mod Bundle
pub mod Trace
pub mod Retention
pub mod Backup
pub mod Pipes
pub mod RestoreArgs
pub mod Restore
pub mod Listing
pub mod Extract
pub mod Program
pub mod Storage
pub mod Schedule
pub mod Process
pub mod Mongo
pub mod Capture
pub mod Secrets
mod Tests
