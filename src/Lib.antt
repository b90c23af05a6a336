-- ===== src/Lib.antt =====
-- NexDrop: verification of the core of the Go server.
--
-- NexDrop moves texts and files between a user's devices, over the LAN or through a node. A client
-- asks the transfer service for a transfer; the service validates the request, resolves the target
-- devices, chooses a route for each of them and stores what it has prepared. Files go to the node in
-- chunks that are checked against their hashes and then assembled. A device reports its progress, the
-- hub keeps one connection for each device, and the recovery coordinator takes up interrupted
-- transfers. Policies decide when an item is downloaded and how long a message is kept.
--
-- Parts, with the paths from the repository's root:
--
-- - Domain: internal/domain. Route is `SelectRoute`, Status is `CanTransitionTo` and `IsTerminal`,
--   Connectivity the reported channel states.
-- - Version: the limits of internal/version/compatibility.go.
-- - Transfer: internal/transfer. Types holds the data, Validate is `validateRequest`, Prepare the
--   loops of `Create` over devices and files, Service the handlers, Timeline the event codes and the
--   handlers of the timeline. A handler takes the state `W` of the database and returns its result,
--   the new state and the metrics. It calls the functions of Domain.
-- - FileTransfer: internal/filetransfer. Manifest is `BuildManifest`, `VerifyChunk`, `VerifyFile`;
--   Service is `UploadChunk`, `OpenChunk`, `Complete` over a disk (a function from paths) and an
--   operating system whose calls may fail, `os.Remove` among them. The reference number of chunks is Transfer's.
-- - Recovery: internal/recovery. Classify is `Classify`, Backoff is `Backoff`, Coordinator `RunOnce`.
-- - Delivery: internal/delivery, `Evaluate` and `Order`.
-- - Lifecycle: internal/messagelifecycle, `Page`, `AdvanceRead`, `EvaluateRetention`, and in Tokens the
--   cursors and tombstones that are signed. Token is the shape of such a token.
-- - Relay: internal/relay/pool.go, `Select` under a comparison of the scores, and the grants.
-- - Adaptive: internal/adaptive, `Recommend` and `bounded`; its second loop has the chunk size for fuel,
--   since each round makes it smaller.
-- - RateLimit: the limiter of internal/api/rate_limit.go.
-- - Presence: `register` and `unregister` of internal/presence/hub.go, as a sequence of events in the
--   order of the hub's lock.
-- - Folder: internal/folder/manifest.go. Paths is `NormalizePath`, Folder itself `Validate`, `Select` and
--   `ResolveConflict`.
-- - Database: internal/postgres/store.go, its tables as lists of rows (Rows), SQL on them (Sql) and the
--   transactions: View is `getTransfer`, Progress `ReportTransferProgress`, Changes `RetryTransferTarget`,
--   `CancelTransfer`, `HideTransfer` and `ReadTransfer`, Files the store of the file service, `ExpiredFiles`
--   and `MarkFileExpired`, Quota `enforceTransferQuotas`. Calls is a sequence of such calls, Steps what one of them does to a target. Files
--   is an instance of the interface `Store` of FileTransfer.Service.
-- - Pairing: internal/pairing/service.go over an interface `Store`; Codes fills it by `CreatePairingCode` and
--   `RedeemPairingCode` of internal/postgres/store.go.
-- - Prelude: shared names, `int64` with its wrap-around, Go's stable sort, strings, results. Tests:
--   the theorems at concrete inputs.
--
-- Conventions: a Go string type is a data type with one more constructor for any other text. `int`
-- and `int64` are integers, with `wrap64` where a sum or product may leave the range. A time is a
-- number of nanoseconds. A loop over a slice is recursion on the list; the loop of `BuildManifest`
-- has fuel for one round more than there are bytes, and each round but the last reads at least one.
--
-- A transaction is a function of the tables. Row locks run the transactions on one target one after the
-- other, so interleaved calls are a sequence of calls. A statement that fails, which rolls its transaction
-- back, is not modelled; an early return is.
--
-- Parameters: the database in Transfer, the recovery queue and its runner, SHA-256, JSON fingerprints, the
-- paths on the node, the failures of system calls, the comparisons of floats, the identifiers and random
-- numbers that are generated, the QR payload, HMAC, base64 and the JSON of tokens, the JSON of an answer that
-- is kept for its key with PostgreSQL's casts of it, and Go's Unicode functions on letters.
--
-- The encoding of a request or a report for its fingerprint, which cannot fail for these types, is total.
--
-- Not modelled: the rest of internal/postgres (creation, timeline reports, sessions, devices, groups,
-- analytics, the administrator's queries), sockets and HTTP, accounts, the clients,
-- the web application and deployment. Log lines and the durations of metrics are left out.
pub mod Prelude
pub mod Domain
pub mod Version
pub mod Transfer
pub mod FileTransfer
pub mod Recovery
pub mod Delivery
pub mod Lifecycle
pub mod RateLimit
pub mod Presence
pub mod Adaptive
pub mod Token
pub mod Relay
pub mod Folder
pub mod Database
pub mod Pairing
pub mod Tests
