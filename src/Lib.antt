-- ===== src/Lib.antt =====
-- Serpent Seek, a meta search server: the model of its search engine.
--
-- A request runs through a chain: a graph of blocks that an operator draws. A provider block calls one
-- configured search backend; start and join blocks carry structure only. The validator judges a chain
-- when it is saved; the plan indexes it for a run; the engine walks it and calls the providers, behind
-- a circuit breaker; the merger collects the rows of several blocks without duplicates. Around the
-- engine: the authentication of requests, the hub that streams a run's events to browsers, the settings
-- that the environment and the database give, the quotas of users, the clean-up of old data, and the
-- encryption of secrets. A driver turns a query into a request to a search service, and its answer into
-- rows and a verdict: success, a failure to try again, or a permanent one.
--
-- Parts and files:
-- - Models: the records of internal/store/models.go and internal/providers/provider.go.
-- - Plan: internal/engine/plan.go. `build_plan`, `next`, `next_in_full_chain`, `neutral_successors` are
--   BuildPlan, Next, NextInFullChain, NeutralSuccessors; `mode` and `snapshot` are the methods.
-- - Cooldown: internal/engine/cooldown.go. `blocked`, `observe`, `active` are the methods of
--   providerCooldowns; each takes the two maps and returns them changed.
-- - Merge: internal/engine/dedupe.go. `add`, `providers`, `rows_up_to` are the methods of merger, over
--   any function from a link to its key; Merge/Link has normalizeLink over a given net/url.
-- - Graph: reachableFrom and findCycle of internal/engine/validate.go.
-- - Validate: ValidateChain of internal/engine/validate.go. Nodes, Edges and Shape have its checks in
--   the order of the source, Report its messages as data.
-- - Engine: internal/engine/engine.go. State has the state of a request (walkState, the breaker, what
--   was given to the store and published); Resolve has resolveNode and recordSkip; Attempt has execNode; First,
--   Legacy and Full have runFirstSuccess, runFullChainLegacy and runFullChain; Finish has finalize; Run
--   has prepare, resolveChain and run.
-- - RateLimit: internal/auth/ratelimit.go. `allow_limit` and `allow` are AllowLimit and Allow; Log has the
--   log of allowed events that the limiter stands for.
-- - Hub: internal/sse/hub.go. `subscribe`, `unsubscribe`, `publish`, `close`, `clients` are the methods;
--   `buffered` and `delivered` are the two steps of Publish. Replay has the log of published events,
--   Bounds the buffers, Delivery and Clients the subscribers, Runs the sequences of calls.
-- - Auth: internal/auth. Keys has ParseKey and the text of a key, Hash HashSecret and VerifySecret,
--   Identity the scopes and permissions (with endpointAllowed of internal/httpd/permissions.go), Storage
--   the storage interface, Sessions CreateSession, LookupSession and ValidateCSRF, Resolve the middleware,
--   ClientIp the address of a client; Accepts is about Resolve.
-- - Config: internal/config/config.go. Keys and Bindings have the tables, Load the reading of the
--   environment, Resolve the manager; Pinned and Environment are about the manager.
-- - Quota: internal/httpd/quotas.go, and in Guard searchGuard of internal/httpd/guard.go. `get`, `put`,
--   `invalidate` are the methods of quotaCache, and Fresh is about them; Periods is about the days of a
--   period, Bound about searches in sequence and searches that overlap.
-- - Jobs: internal/jobs. Registry has the manager, Cleanup the clean-up and DeleteOldUsage of
--   internal/store/sqlstore/sqlstore.go; Steps and Retention are about what the
--   clean-up keeps and deletes.
-- - Rest: internal/providers. Json has decoded values and the readers of rows.go, Params those of params.go,
--   Spec and Catalog the table of drivers of rest.go, with their requests in Build and Builds and what they
--   extract in Extracts and Papers; Classify is the sorting of failures of httpclient.go, `search` of
--   Rest/Search is Search. Verdict and Panics are about the end of a search, Waits about the answers
--   that ask to wait, Crowded about the one abstract that can panic, Outcome about the steps of a search, Built and Sent about the requests of `default_build`, Links and
--   Extractions about the links of rows, Table about the rows of every driver.
-- - Update: internal/updatecheck/updatecheck.go. `compare_versions`, `parseable`, `parse`, `check` are
--   CompareVersions, Parseable, parse, Check; Order and Versions are about the order of versions.
-- - Crypt: internal/crypt/crypt.go. Cursor: internal/store/cursor.go.
-- - Prelude: lists, texts, maps and tests that the parts share. Samples: data of the tests.
--
-- A map of Go is an association list; where Go ranges over a map, the order is a parameter. An `int` of
-- a setting is an integer of any size; a duration is a natural number, since none of the arithmetic
-- on them comes near 2^63. strings.ToLower is exact for the letters that can become ASCII letters, which
-- is what the comparisons with fixed words read. The plan's own state does not change during a run.
--
-- A loop that need not end by its form takes fuel, and returns nothing when the fuel is out. The
-- searches take theirs from the graph: reachability has a round for each edge and two more, since a
-- round drops a queued key or moves edges of an unseen key to the queue; the search for a cycle has one
-- call for each key and one more, since a call puts a new key on the stack. The walks take fuel from
-- the caller: the linear walk and the wave executor mark a node in each round, and the fallback walk
-- goes down an order of the blocks without cycles, such as the one in which the validator's search
-- finishes them.
--
-- In Rest, a search is one exchange. The coding of JSON and URLs, the floating-point numbers, the wait for
-- the rate limiter, the exchange over HTTP and its deadline are parameters, and an extraction that would
-- panic says so as a value.
--
-- The replies of the upstream calls, the clock, random bytes, the environment, the libraries'
-- codecs, hashes and ciphers, the limiter, the redaction of messages, the registry of drivers and
-- the answers of the store are parameters. Settings are constant during a request. Blocks of one
-- wave run one after another, in an order that is a parameter; their attempts are not interleaved.
-- Not modelled: logging, metrics, notifications, the proxies and tokens handed to drivers,
-- cancellation and the time limit of a chain, costs as floating-point numbers, cookies and passkeys,
-- the scheduling of jobs, the handlers of the HTTP layer, the store's SQL, the drivers with a file
-- of their own and the web interface.
pub mod Prelude
pub mod Models
pub mod Plan
pub mod Cooldown
pub mod Merge
pub mod Graph
pub mod Validate
pub mod Engine
pub mod RateLimit
pub mod Auth
pub mod Crypt
pub mod Config
pub mod Quota
pub mod Jobs
pub mod Cursor
pub mod Hub
pub mod Samples
pub mod Rest
pub mod Update
