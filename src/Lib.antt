-- ===== src/Lib.antt =====
-- AI-cloudhub: the BYOC job queue, accounts and sessions, agents and drives over the in-memory store,
-- and the policy engine.
--
-- Users create jobs; their own runners claim them, send heartbeats and complete them; a reclaim loop
-- fails the jobs that are out of time and gives back those whose runner is silent; an ended job puts
-- an event into an outbox, from which a worker delivers it to a webhook. The policy engine decides
-- which requests of agents and of people pass. People log in with a password and hold an access token
-- and a refresh token; an agent acts for a person, with a token of its own, within scopes, drives and
-- path prefixes; the engine's built-in checks read the lists that the agent's row holds.
--
-- Which file is about which part of the program:
--   Common, Text, Table, Sort, Int    numbers, lists, Go's strings, maps and integers; Sort is the
--                                     exchange sort of internal/store/memory.go
--   Job, Job/Settings, Job/Rows       internal/job/service.go: the row of a job, the settings, and
--                                     what each operation does to one row
--   Outbox, Store, Store/*            internal/store/memory.go: the tables of jobs and of webhook
--                                     events, one function per method (GetJob is get_job)
--   Queue, Queue/*                    internal/job/service.go: one function per method of Service,
--                                     from a store to the new store and the result
--   Queue/Lifecycle, Lifecycle/*      the specification: the diagram of states, the legal writes of a
--                                     row, and the operations as sequences of them
--   Queue/System, System/*            every call of every client in any order
--   Queue/Races                       two operations on one row whose reads and writes interleave
--   Policy, Policy/*                  internal/policy/engine.go, file.go, opa.go and pdp.go; Grants says
--                                     what the lists of an agent admit
--   Action, Action/Keeps              methods that change the store and may answer an error
--   Memory, Memory/*                  internal/store/memory.go: users, tokens, agents, drives,
--                                     bindings, audit
--   Auth, Auth/*                      internal/auth/auth.go, refresh.go, scope.go and policy.go: Scopes,
--                                     Tokens (issue, parsePayload), Sessions (Refresh, Logout), Accounts
--   Auth/Calls, Calls/*               every call of accounts, sessions and agents in any order
--   Auth/Revocation, Rotation, Denylist, LastAdmin   what such calls keep
--   Agents, Agents/*                  internal/agent/service.go
--   Lockout, Lockout/*                internal/policy/authlimit.go and handleLogin of
--                                     internal/httpserver/server.go
--   Drives, Drives/*                  internal/drive/service.go and binding.go, internal/policy/quota.go
--   Examples, Examples/*              concrete runs
--
-- How the state corresponds. The maps of the store are lists of rows that hold their own key, in the
-- order in which a loop over the map meets them; the labels of a Create are in the order in which
-- encodeJobLabels meets them, which differs from call to call. GetRefreshTokenByHash takes the first row
-- of its list with the hash: which row Go's loop meets first matters only where two rows have one hash.
-- Each method of the store holds its mutex, so it is one
-- step. A method of a service is run as one step, with one reading of the clock, in Queue/System and in
-- Auth/Calls; Queue/Races takes two of them apart. The store of the jobs (Store) and that of the accounts
-- (Memory) are two records for two groups of the maps of one Go struct: no method is on both. A token
-- version and a job's attempt_count are numbers that only grow, by one at a time from 0; they are not cut
-- to 64 bits.
-- A time is a number of nanoseconds, the zero time is 0 for jobs; for tokens it counts from 1970.
-- Numbers that the code clamps at 0 before it stores them are natural numbers, the others are integers;
-- a product that makes a time.Duration wraps at 64 bits.
--
-- Parameters: the environment, the identifiers that uuid.NewString gives (distinct, where a theorem
-- says so), encoding/json, sort.Slice (which permutes and sorts, where a theorem says so), the HTTP
-- request of a delivery, strings.ToLower, HMAC-SHA256, SHA-256, base64 (which decodes what it encodes
-- and writes no dot, where a theorem says so), bcrypt, rand.Read, `%q`, the lookup of a provider, the
-- answer of the rate limiter, the query of OPA and the reply of the decision point.
--
-- Loops are recursions on the list that they run over. The sort's outer loop runs once for each element;
-- decimal printing has one more step of fuel than the number, which has fewer digits than that.
--
-- Not modelled: the SQL stores (statements of a database), the HTTP server but for handleLogin, the
-- cloud providers, the rate limiter's bucket of floating-point numbers, snapshots, mounts and
-- the other services that keep records; metrics; parallel deliveries (below); the reading and reloading of
-- policy files. With AI_CLOUDHUB_JOB_WEBHOOK_MAX_INFLIGHT above 1 the code delivers the rows of a batch in
-- parallel; the model delivers them one after the other.
pub mod Action
pub mod Common
pub mod Text
pub mod Table
pub mod Sort
pub mod Int
pub mod Job
pub mod Memory
pub mod Outbox
pub mod Store
pub mod Queue
pub mod Policy
pub mod Auth
pub mod Agents
pub mod Lockout
pub mod Drives
pub mod Examples
