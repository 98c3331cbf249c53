-- ===== src/Lib.antt =====
-- allino (github.com/wh-kuromai/allino): a Go framework that turns typed functions into HTTP, MCP,
-- CLI and job handlers. This library models the parts that keep state or decide something by
-- themselves.
--
-- The parts of the program and the files that model them:
--
-- * internal/trie/trie.go, the radix tree behind prefix revocation: Trie. `Trie` is the root,
--   `Forest` the children of a node; `insert`, `match_all`, `shortest_match` are Insert, MatchAll,
--   ShortestMatch. Trie/Prefix, Lookup, Inserts, Insert, Match and Shortest hold the proofs.
-- * typedhandler_job_sql.go, the job queue in SQLite: Jobs. Jobs/Table is the schema of Init with its
--   triggers, Jobs/Queue has Enqueue, Dequeue, Reaping, LeaseUpdate, Free and requeue, Jobs/Outcome
--   Result, Hit and Wait, Jobs/Finish doneAsync and Done, Jobs/Listing List, Jobs/Totals Total, and
--   Jobs/Steps makes one step function of the calls that typedhandler_job.go names in callStrategy and
--   JobTask. Jobs/Locked says what ends a lease; the other files of Jobs hold the proofs.
-- * internal/timewheel/timewheel.go, the timer wheel that a waiting caller of a job is put on:
--   TimeWheel. `add`, `cancel`, `reset` are Add, Cancel, Reset, `tick` is a case of the ticker in Run.
--   TimeWheel/Timetable says what each later tick runs, TimeWheel/Adds what a call does to that.
-- * ext/revoker/revoker.go, revocation of login tokens, which keeps prefixes in the tries: Revoker.
--   `insert_exact` and `insert_prefix` are Insert and InsertPrefix, `rotate` is a case of the ticker,
--   `is_revoked` is IsRevoked. Revoker/Verdict says what a query answers, Revoker/Rotation and
--   Revoker/Effects what rotations and revocations do to the answers.
-- * typedhandler_job_utils.go, job ids and versions: JobIds has encodeJobID, decodeJobID and
--   hasMajorOrMinorVersionDiff; the types JobMeta and JobInfo are in Jobs.
-- * typedhandler_job.go, typedhandler_job_context.go, typedhandler_job_sql_init.go and
--   typedhandler_job_manager.go, the calls of functions with a job mode and the workers: Calls.
--   Calls/Options has the modes, JobMeta and JobID, Calls/Lookup unmarshalfnMake with the JSON of
--   outputs as fields of a function, Calls/Call call_job and JobResult branch by branch over the
--   tables of Jobs, Calls/Worker the loop of WorkerInit and the input of a job. Calls/Exclusive,
--   Async, Cached, Outdated, Requeued, Turns and Intervals hold the proofs.
-- * typedhandler_job_go.go, futures: Futures has returns, Then, Catch, Finally and go_internal,
--   Futures/Callbacks counts calls, Futures/Rounds follows the rounds of a pending job.
-- * session_manager.go and session_sticky.go, sessions in one server: Sessions/Store has the resources
--   and the sessions that use them, Sessions/Sticky decides where a call with a token runs.
--   Sessions/Amounts, Accounts and Guards hold the proofs.
-- * kvs.go, the key-value store on SQL: Kvs, with its view as a map in Kvs/Views.
-- * internal/randcron/randcron.go, cron expressions with random fields: Cron has expandField and Expand,
--   Cron/Decimal the decimal numbers, Cron/Ranges the ranges of the values.
-- * serve_casbin.go, access control: Acl has expandACLTemplate and enforceACL, with proofs in
--   Acl/Templates.
-- * typedhandler_route_utils.go, how a route lists its parameters: Routes.
-- * serve_login.go, who a request comes from: Login has the tokens and cookies that userWithJWT reads,
--   with their verification and what the HTTP library reads of a request as arguments, Login/Guests the
--   session id of a guest and the tokens that are issued. Login/Vouched, Cached and Issued hold the
--   proofs.
-- * typedhandler_job_redis.go, functions over Redis streams: Streams, with what Redis answers as an
--   argument. Streams/Replay follows a replay and what the consumer group delivers after it,
--   Streams/Listener what becomes of a message.
-- * typedhandler.go and session.go, the handling of a request and the way of a call: Functions, where
--   the guard joins Acl and Login. Functions/Guarded and Requests hold the proofs, Functions/Paths the
--   order of registration.
-- * serve_request.go and reflectplan.go, the parameters of a function read from a request: Binding.
--   Binding/Fields is getByStructField, Binding/Values setByReflect, Binding/Walk getAll, with what the
--   HTTP library, the decoders, the validator and the extensions answer as arguments. Binding/Accepted,
--   Precedence and Integers hold the proofs.
-- * session_redis.go and session.go, sessions in Redis: RedisSessions, with JSON as an argument.
--   RedisSessions/Recalled follows a value from request to request, RedisSessions/Keys says which hash a
--   session is read from.
-- * typedhandler_mcp.go, what MCP clients are offered: Mcp has the names of functions, the list of
--   resources and what is read under a URI, Mcp/Prompts the front matter of a prompt. Mcp/Names and
--   Mcp/Listed hold the proofs.
-- * merge.go, configurations merged over one another: Merge, with the laws of layers in Merge/Layers.
-- * typedhandler_job_set.go, the handlers a worker asks for: JobSet, with its laws in JobSet/Laws.
-- * typedhandler_job_store.go, status names and codes and the totals under names: JobStore, with the
--   proofs in JobStore/Names.
--
-- Base holds the shared helpers: Boolean tests, lists, bytes and integers over the native numbers.
--
-- Choices. A string is a list of byte codes. Times are natural numbers of nanoseconds, NULL is `none`,
-- a status is a constructor with its code. A table is a list of rows in the order of their ids, a SQL
-- statement is a function of the tables, and the clock is an argument of every call. The body of a
-- function is an argument of a call, which gives the database that the body leaves with all that
-- others do meanwhile, renewals of the lease among it. Amounts of resources are natural numbers, as a
-- configuration gives them. Recursion is structural; the digits of a number take that number as fuel,
-- and a replay of a stream one round for each message before the last, which the proofs show to be
-- enough. Numbers are unbounded, but for the integers that are parsed from text or stored in a field of
-- some bits: ids and counts stay far below 2^63.
--
-- Not modelled: a failing database connection, HTTP, OpenAPI and the JSON of MCP, the command line,
-- configuration files, logging and the clients of AI services, which call libraries
-- for nearly all they do.
pub mod Base
pub mod Trie
pub mod Jobs
pub mod TimeWheel
pub mod Revoker
pub mod JobIds
pub mod JobSet
pub mod JobStore
pub mod Calls
pub mod Futures
pub mod Sessions
pub mod Kvs
pub mod Cron
pub mod Acl
pub mod Routes
pub mod Merge
pub mod Login
pub mod Streams
pub mod Functions
pub mod Binding
pub mod RedisSessions
pub mod Mcp
