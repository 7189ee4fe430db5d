-- ===== src/Lib.antt =====
-- The zizq Rust client library: what a job queue's client keeps, decides and promises by itself. A worker
-- opens a stream of jobs on the server, runs a handler for each job, and acknowledges the jobs that succeed or
-- reports those that fail; other callers select jobs by filters to list, count, delete or patch them, and
-- change jobs and budgets by merge patches. Sources are named by their path from the repository's root.
--
-- The parts, with the code that each is about:
-- - Prelude: names of the libraries, Boolean tests on numbers, lists over the native numbers, results and bytes.
-- - Error (zizq/src/error.rs): `ZizqError` and its predicates. The errors of reqwest and url are a type
--   parameter.
-- - Format (zizq/src/format.rs): the two formats and the media types that name them.
-- - Take (zizq/src/take.rs): `TakeStream`. `decode_ndjson` and `decode_msgpack` cut records off a buffer of
--   bytes, `poll_loop` is the loop of `poll_next`, `feed` takes a chunk of the body and `finalize` its end. The
--   parsers of records (serde_json, rmp_serde) and the chunks are parameters. Take.Collect polls until
--   the stream is done, Take.Frames holds the encodings that the round trips are stated with.
-- - Worker (zizq/src/worker.rs): Worker.Builder is `WorkerBuilder`, Worker.Backoff `next_backoff`,
--   Worker.Handle `handle_job` with its loop of reports, Worker.Ack `ack_processor`, and Worker.Dispatch
--   `dispatch_loop` and `dispatch_session`. The loops are step functions on a state, and a run is a list of
--   events in any order: what the server answers, what a channel delivers, which task is done, the clock,
--   the shutdown. An event that cannot happen in a state has no result. tokio's
--   channels, task sets and `select!` are thereby taken by their documented behaviour. Errors
--   that the loops meet are those of the module Error.
-- - Patch (zizq/src/job_patch.rs): the three-state `Field`, `JobPatch` and `RetentionPatch` with every setter,
--   and the bodies that the derived `Serialize` writes. `f32` is a type parameter.
-- - Budget (zizq/src/budget.rs): strategies and their wire form, policies, bindings, and `BudgetPatch`. A
--   duration is a number of nanoseconds, and its milliseconds wrap around at 64 bits as the cast does. A panic
--   is `none`. What the server makes of a patch is not modelled: Budget.Changes and Budget.Mixed are about what is sent.
-- - Filter (zizq/src/job_filter.rs, zizq/src/range_filter.rs, zizq/src/timestamp.rs): `JobFilter`, its setters
--   and its query parameters. The text of a number is a parameter.
-- - Endpoints (zizq/src/list_jobs.rs, zizq/src/count_jobs.rs, zizq/src/delete_jobs.rs,
--   zizq/src/patch_jobs.rs, zizq/src/budget_jobs.rs): the URL of each builder, when awaiting it
--   answers without a request, the request that it sends otherwise, and the stream over the pages of a
--   listing. They use Filter, Patch and Budget. What the client answers to
--   the calls of the stream, which are recorded, is any sequence. Endpoints.Requests is the table of requests that the
--   builders are compared with, over the parameters of Filter.Asked, and Endpoints.Pages.Visits is about the stream.
-- - JqPath (zizq/src/jq_path.rs, zizq/src/hashable.rs): `walk`, `remove` and `pick` on values, and the payloads
--   without or with only given paths that keys are hashed from. A write through a mutable
--   reference is the value that it leaves: `set_from` enters a child and writes it back. JqPath.Values is the
--   interface to serde_json: what a value is matched to, and the laws of a map.
-- - Router (zizq/src/router.rs): registration of handlers by type of job and dispatch to them.
-- - Enqueue (zizq/src/enqueue.rs, zizq/src/job.rs): the builder of an enqueue, and its request. The clock and the last
--   time that an `OffsetDateTime` holds are parameters, and the panic of a delay beyond it is `none`.
-- - Batch (zizq/src/batch.rs): the builder of a batch's jq expressions.
-- - Bulk (zizq/src/bulk_enqueue.rs), Failure (zizq/src/failure.rs) and Cron (zizq/src/cron.rs): the builders of
--   these requests. A payload in its box is a type parameter.
-- - Client (zizq/src/client.rs): `Inner`, the requests that a client sends and what it makes of responses.
--   Client.Builder is `ClientBuilder`, Client.Calls has the methods that make one request, and
--   Client.Stream the one that opens the stream of jobs, with `TakeBuilder`. An HTTP
--   client (reqwest) is a function from requests to responses, URLs (url) and the encoders and decoders of
--   values (serde_json, rmp_serde) are records of functions. Client.Status.Routes is the table of the interface that
--   the methods are compared with, Client.Remote a server of the wire protocol, and Client.PagePath is about the pages
--   that a response names, and ErrorList.Origin about a stream of them.
-- - Derive (zizq-derive/src/attrs.rs, zizq-derive/src/jq_path.rs): the parsers of the derive macro.
--   Derive.Meta is what syn reads of an attribute, where an expression is a type parameter; Derive.Attrs has a parser for
--   each body, which folds a record of the locals over the items; Derive.Path is the parser of paths, over bytes.
--   Derive.Kind is zizq-derive/src/lib.rs: the tokens that are emitted are taken as the values that they stand
--   for, so that an expansion gives a job kind of the module Enqueue, with keys by UniqueKey, Batch and JqPath.
-- - UniqueKey (zizq/src/unique_key.rs): the constructors of keys, over a parameter that hashes values.
--   UniqueKey.Canonical is `write_canonical`, whose hasher is the list of the bytes that it is fed, and UniqueKey.Order
--   the sorting of keys. SHA-256 (sha2) and the tokens of serde_json are parameters.
-- - ErrorList (zizq/src/list_errors.rs): the listing of a job's errors through the client, and its stream.
-- - JqExpr (zizq/src/jq_expr.rs): the expressions that match payloads.
-- - Tests: runs of the model and uses of its theorems at concrete inputs.
--
-- Fuel: a consumer of a stream of records or of pages polls as often as it has fuel. The theorems about
-- such a consumer say how much is enough, or hold for every amount. The loops of one poll recurse on the
-- chunks or on the answers that are left, and need none. The stream of errors has fuel for pages and for records. The parser of paths gets the length of its input.
--
-- Not modelled: reqwest, url, serde and syn; the structs that are only decoded; and the rendering of errors and
-- builders for debugging.
mod Prelude
pub mod Error
pub mod Format
pub mod Take
pub mod Worker
pub mod Patch
pub mod Budget
pub mod Filter
pub mod Endpoints
pub mod JqPath
pub mod Router
pub mod Enqueue
pub mod Batch
pub mod Bulk
pub mod Failure
pub mod Cron
pub mod Client
pub mod ErrorList
pub mod JqExpr
pub mod UniqueKey
pub mod Derive
mod Tests
