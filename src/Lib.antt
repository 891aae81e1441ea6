-- ===== src/Lib.antt =====
-- HUSTack's submission service (the Go packages under internal/ and cmd/). The API accepts a source
-- file, writes a row and an outbox event in one transaction, and answers; the mock worker's
-- dispatcher copies due events to a Redis Stream; its consumers claim an entry, start the submission
-- under the running quota, work, finish it and acknowledge the entry; its recovery loop puts stale
-- runs back in the queue with a new event.
--
-- Which file models which part:
-- - Database (internal/database/database.go, migrations/001_init.sql): the tables, and the driver. A
--   session has the committed tables, those of the open transaction, the clock in microseconds, and a
--   script that tells for each call of the driver whether it is served, refused, or carried out with
--   its answer lost; after the script every call is served. Database/Statements has one function for
--   each SQL statement, Database/Lifecycle CreateSubmissionQueued, TryStartSubmission,
--   FinishSubmissionConditional, RecoverStaleSubmission, SetInternalError and the others,
--   Database/Outbox ProcessNextOutbox, Database/Participants UpsertParticipant and
--   ListStaleProcessing. A transaction is one step: the row lock and the advisory locks of the code
--   make its counts and its writes one unit. Database/Change is the abstract machine,
--   Database/Refines is about the calls as its steps, Database/Effects about what each of three calls
--   does with its own arguments, Database/Outbox/Dispatching about the event that ProcessNextOutbox
--   takes and what it notes, Database/Quota about the quotas, and
--   Database/Calls runs calls in sequence. Database/Rules has one proof rule for each driver call.
-- - Queue (internal/queue/queue.go): EnsureConsumerGroup, Enqueue, Claim, ClaimStale, parseOrDiscard,
--   Ack. Redis is the record StreamServer: the commands, with what their documentation promises.
--   Queue/Memory is a stream in memory that keeps these laws.
-- - Worker (cmd/mock-worker/main.go): processOne as a program counter machine with one transition
--   for each call and one for the wait, the loops around it, and the delivery of an event. Its
--   longest way has four transitions, which is what process_one runs; outbox_tick runs at most 100
--   dispatches, as the source does.
-- - Pipeline: the whole as steps that interleave in any order, with any number of workers, which may
--   crash between two calls. Pipeline/Transport has what the queue's calls do to the stream,
--   Pipeline/Starts what the worker may conclude from TryStartSubmission, Pipeline/Events and
--   Pipeline/Dispatching what happens to events, Pipeline/System the steps and the invariant.
--   Pipeline/Lifetime follows one upload from CreateSubmission over a run to GetSubmission.
-- - RateLimit (internal/ratelimit/ratelimit.go): the Lua script of tokenBucket in its parts (filled,
--   refill, charge), and AllowParticipantSubmit, AllowIPSubmit and AllowPoll. Redis is the record
--   KeyStore; RateLimit/Memory keeps its laws. Lua's numbers are exact here, as they are below 2^53.
-- - Storage (internal/storage/storage.go): safePath, SaveStream, Commit, Read, Delete and
--   ValidateExtension on a disk that maps paths to contents, with a script of the calls that fail, and
--   one of the removals that fail, whose errors the code drops. The hash is a parameter. A reader is
--   the list of what its reads return, however they cut the source; io.EOF comes with the last bytes
--   or behind them.
-- - Config (internal/config/config.go): Load with its defaults and checks, and IsTrustedProxy.
--   time.ParseDuration, net.ParseCIDR and Contains are parameters.
-- - Encoding: base64.RawURLEncoding and %d, of the standard library.
-- - Identity (internal/identity/identity.go): CookieProvider with Resolve, SetIdentity, ClearIdentity,
--   CSRFToken, VerifyCSRFToken and VerifyOrigin, and GenerateParticipantID and ExtractClientIP. The
--   keyed hash is a parameter, as are net.ParseIP and net.SplitHostPort; int64 numbers wrap. A number
--   is printed with twenty digits as fuel, which is enough for 64 bits.
-- - Submissions (internal/submissions/submissions.go): CreateSubmission (check_request, read_parts,
--   store_upload) and GetSubmission (lookup_submission), over the limiter's store, the disk and the
--   database session; a multipart body is the list of what NextPart returns. Submissions/State has the
--   data and the sequence of steps, Submissions/Readers stripBOM,
--   Submissions/Filenames sanitizeFilename, Submissions/History calls in sequence.
-- - Web (internal/web/web.go, middleware.go): the handlers with the answers to errors, and in
--   Web/Middleware the recovery, the identity and the security headers around the handler that the
--   router finds, and the log. Web/Log has logWriter and a line of the log; a response is written by
--   the calls of calls_of. The router itself is outside: its choice is part of the request.
-- - Api (cmd/api/main.go, and main of cmd/mock-worker/main.go): the two processes as sequences of
--   steps that may leave by os.Exit, with a record of what they did; the worker's loops are one such
--   step, which returns. Database/Connection has Connect and RunMigrations, and
--   migrations/001_init.sql as statements on the relations of a database.
-- - Base: Boolean tests, Go strings as lists of bytes, counting, integers.
--
-- Limits are signed integers; counts, sizes and times are natural numbers. Not modelled: Depth,
-- Ping, file modes, the options and levels of the log, its lines beside those of requests,
-- contexts other than as a call without an answer, what the timeouts of the HTTP server do, the
-- answer to a template that fails to render and static files.
pub mod Base
pub mod Database
pub mod Queue
pub mod Worker
pub mod Pipeline
pub mod RateLimit
pub mod Storage
pub mod Config
pub mod Encoding
pub mod Identity
pub mod Submissions
pub mod Web
pub mod Api
