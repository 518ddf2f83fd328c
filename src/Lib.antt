-- ===== src/Lib.antt =====
-- OmniToken collects the token usage of coding tools on several machines. On each device an agent
-- reads tool logs, packs usage events, quota snapshots and process reports into envelopes, and keeps
-- these in a durable outbox until the hub acknowledges them. The hub validates an envelope, applies
-- its payload and writes a receipt in one SQLite transaction. This library models that path, from the
-- outbox through the network to the tables, the merging of two device identities, the registry of
-- devices, and the derivation of billing blocks and of work time from events.
--
-- The parts, and the files of the repository they are translated from:
-- - Prelude: shared names, Boolean tests, lists, and what UPDATE, DELETE and SELECT keep of a table.
-- - Fallible: results with an error, for do blocks.
-- - Model/Event, Model/Snapshot: the records of internal/model/event.go, quota.go and procs.go.
-- - Model/Provider: internal/model/provider.go (BillingChannel, ProviderRank) and the CASE expression
--   that internal/store/window.go builds from it (buildProviderRankSQL).
-- - Model/Envelope: internal/model/ingest.go, ValidateIngestEnvelope and validUUID. Envelope/Accept
--   says when an envelope is acceptable, Envelope/Verdict compares the two.
-- - Parser/Codex: internal/parser/codex/parser.go. Codex/Line has a decoded line and the helpers
--   (deltaUsage, quotaSnapshots, applySessionChannel), Codex/Turn closeTurn, and Codex the loop of parse
--   as one step per line. Codex/Running and Codex/Totals compare the events with the running totals,
--   Codex/Copy and Codex/Fork a file with its copy, Codex/Growth a file with its own beginning;
--   Codex/Shares divides a turn's time.
-- - Collect/State: internal/collect/state.go, the cursor state of the collector, in memory and on disk;
--   State/Rollback is about saves that fail. Collect/Scan and Scan/File: internal/collect/scan.go,
--   scanFile and ScanSources. Scan/Names says which batch a delivery key names; Scan/Sound and
--   Scan/Grows are about the state's operations, Scan/Onward, Scan/Delivered and Scan/Commit follow a
--   scan's deliveries to its commit, Scan/Kept is about a whole scan and Scan/Runs about any sequence
--   of scans, resets and restarts.
-- - Store/Events: internal/store/store.go, the events table and each prepared statement as a guard and
--   a set function. Events/Insert has the steps of one observation (fork decision, backfill of the
--   key, reclassify, reattribute, fills, promote), Events/Batch the loop of insertEventsFromTx. The
--   proofs are in Events/Counts, Keys, Commit, Committed and Accounting.
-- - Store/Quotas, Store/Procs, Store/Ingest: internal/store/ingestv2.go, insertQuotasTx,
--   applyProcReportTx and ApplyIngestV2. Ingest/Growth
--   is about the receipts, Ingest/Replay about further deliveries of a batch.
-- - Store/Merge: internal/store/devicemerge.go, PlanDeviceMerge and MergeDeviceIdentity. Merge/Plan
--   compares the preview with the execution, Merge/Effect and Merge/Report say what it leaves.
-- - Store/Procs/Replace and Store/Quotas/Again: what a process report leaves, and quotas sent twice.
-- - Store/Blocks: internal/store/blocks.go, identifyBlocks; Blocks/Windows is about how the windows lie.
-- - Store/Worktime: internal/store/worktime.go, bridgeSpans, mergeSpans, unionMS, sumMS and a row of
--   WorkTime; Worktime/Cover and Worktime/Bridge are about the spans' cover and their totals.
-- - Store/Registry: internal/store/deviceregistry.go, the credentials of devices, and Registry/Machines:
--   internal/store/machineidentity.go, EnrollMachineDevice. Registry/Revoked is about a revoked device,
--   Registry/Principals, Rotation and Single about the keys of the two tables.
-- - Store/Capacity and Capacity/Backfill: internal/store/capacity.go, the samples of how many tokens a
--   window holds. Capacity/Peaks is about what readings leave, Capacity/Estimate about the estimate.
-- - Server/Ingest: internal/server/ingestv2.go, handleIngestV2.
-- - Server/RespCache: internal/server/respcache.go, concurrent requests for cached responses as a step
--   relation. RespCache/Invariant and Finish keep its invariant, RespCache/Release is about waiting.
-- - SiteAuth: internal/siteauth/auth.go, login codes, sessions, challenges, passkeys and attempts, and
--   SiteAuth/Handlers: internal/siteauth/http.go, the handlers that write. SiteAuth/Codes is about one
--   code, Attempts about the limit, Spent and Granted about what an operation and a handler cost, Opened
--   and Signed about the sessions they make. Serve is any sequence of calls, Sessions and Ledger are
--   about it.
-- - Agent/Outbox: internal/agent/outbox.go. Outbox/Order is about what enqueuing appends, Outbox/Fifo
--   about the order of the queue, Outbox/Sound about the table's invariant under every call.
-- - Agent/Backoff: internal/agent/agent.go, retryBackoff; Backoff/Cap compares it with plain doubling.
-- - Agent/Partition: internal/agent/agent.go, prepareEnvelope, partitionEventEnvelopes,
--   collapseRepeatedEventIDs, enqueueEvents, enqueueEnvelope. Partition/Whole is about the parts,
--   Partition/Collapse about repeated ids, Partition/Acceptable, Refusals and Accepted about what the
--   validator and the outbox do with the parts.
-- - Agent/Upload: internal/agent/agent.go, uploadOldest and drainOutbox. Upload/Drain is about its end.
-- - Delivery: an outbox, the hub and the network between them as a list of actions. A request may be
--   dropped, or served without its answer arriving. Delivery/Receipts says what a request does to the
--   receipts, Delivery/Loss and Delivery/Once what holds over any run.
-- - Tests: concrete inputs.
--
-- How state and errors are modelled. A table is a list of rows, and a statement is a function on it
-- that also returns the rows it touched. A transaction is a function whose failure returns the
-- state before it. An observation of the events loop may fail on the unique index of dedup keys,
-- and a moved snapshot on its primary key. Times, counts and token numbers are natural numbers: the
-- 64-bit overflow of a sum is outside the model, as are negative numbers. Percentages are kept in
-- millionths. A receipt's sequence is a number where the table has its decimal text. Settings
-- documents (labels, merge history) are absent, unreadable or decoded.
--
-- Bounds and fuel. The batches of 2000 events of a scan run on fuel, the number of events. The
-- halving of a batch runs on fuel, one more than its events. drain_outbox runs on fuel, and one
-- more than the length of the queue is enough: an upload that succeeds removes a row. The sequence
-- of the outbox stops at 2^64 - 1 as in the code. An envelope has at most 16 MiB and 2000 events.
--
-- Parameters. For the capacity of a sample: the double-precision quotient. For the collector: the
-- file's bytes, its parser, the SHA-256 of a batch, the repository of a directory, and which sends
-- and saves fail. For the parser: decoding a line, reading a timestamp and SHA-1. For the site: the
-- WebAuthn library, digests, random tokens, ToUpper, and which database calls of a request succeed;
-- the clock stands still within a request. JSON encoding and decoding of an envelope, the digest of
-- a token and the authentication of a request are arguments. A hypothesis on the first two is named
-- RoundTrips: what was encoded decodes to itself. Failures of the database itself (disk, locks) are
-- modelled for the site alone. The sort of spans is a sort by insertion, and the random factor of a
-- retry's delay is left out.
--
-- Not modelled: opening and migrating databases, logging, the reading queries of the dashboard, the
-- other log parsers, process probes, the proxy, pricing, the status line, the pages of the site's
-- login, the command line, the desktop application and the web interface.
pub mod Prelude
pub mod Fallible
pub mod Model
pub mod Parser
pub mod Collect
pub mod Store
pub mod SiteAuth
pub mod Server
pub mod Agent
pub mod Delivery
pub mod Tests
