-- ===== src/Lib.antt =====
-- Sannad, a kernel for modular business applications: the coordination of its modules.
--
-- A module registers with the kernel (registry), offers and subscribes to hook points (hooks), runs
-- operations that cross modules as sagas over the tables of its store (saga), and events leave the
-- kernel under subjects that name the tenant (events) and as webhook deliveries (webhooks). Modules
-- that are not trusted run in a sandbox (wasm). Callbacks on the statements of the database add
-- the tenant of their context (tenancy), and requests carry sessions that can be revoked and identities
-- with roles (auth).
--
-- Saga: pkg/modulekit/saga.go over pkg/modulekit/storage.go. Saga/Exec is a monad over the two
--   tables, the world of the modules, and a list of faults: each call of the store takes one fault
--   and passes, fails or ends the process. Saga/Run has RunSaga (run_saga), driveSaga, compensate
--   (its loop is unwind), Saga/Recover has RecoverSaga. Saga/Spec is a saga in memory. The tenant
--   column and the times are left out: no branch reads them.
-- Hooks: pkg/modulekit/hook.go, internal/kernel/hooks/registry.go and dispatch.go. A subscriber is a
--   function on a world; a panic, a timeout and a cancellation are ways that its call ends. The
--   mutex is left out: a call of the registry is one step.
-- Registry: internal/kernel/registry/registry.go and pkg/modulekit/module.go. Install is a tree of
--   the calls that a module makes on its Registrar and of what it does with each answer.
-- Webhooks: internal/platform/webhooks. Webhooks/Queue is a monad over the tables of endpoints and
--   deliveries with a list of the calls of the store that fail; Webhooks/Runner has Enqueue,
--   DrainOnce, Replay and ReplayEndpoint; Webhooks/Retry has BackoffFor, Attempt (after the request)
--   and Advance; Webhooks/Endpoints has the management of endpoints (endpoints.go).
--   Webhooks/Signature has Sign and Verify. The clock, the HTTP client,
--   HMAC, uuid and rand are arguments. Times are nanoseconds.
-- Modulekit: pkg/modulekit/idempotency.go and projection.go. Modulekit/Transactions has a store with
--   a list of the calls that fail, and transact, which rolls back on an error. The handler of an event
--   is a function on the module's data, which may fail; calls of the store that it makes do not fail
--   apart from that.
-- Events: internal/kernel/events/subject.go. Texts are lists of code points.
-- Wasm: internal/kernel/wasmhost, the sandbox of WebAssembly guests, and the names of version tables
--   (pkg/modulekit/migrations.go). Wasm/Context has the grants and the Go context of an invocation,
--   with the states of all invocations as a list in which the context holds a place; Wasm/HostCalls
--   and Wasm/Publish have the host calls, Wasm/Host has Invoke and Handler, Wasm/Manifest and
--   Wasm/Module the approved manifest and the module. The runtime, JSON, the kernel caller and the
--   publisher are arguments. Deadlines are left out, except that a call may end as timed out.
-- Tenancy: internal/platform/tenancy/isolation.go and clause.go. Tenancy/Scope has the callbacks on
--   queries and raw SQL over the fields of a statement that they read, Tenancy/Stamp those on inserts
--   over a tree of what reflect finds. The ORM and strings.ToLower are outside.
-- Auth: internal/platform/auth. Auth/Database is a monad over tables, an audit log and a list of the
--   calls that fail; Auth/Roles is rbac.go, Auth/Revocation is revocation.go, Auth/Accounts is admin.go
--   and service_account.go, Auth/Tokens is session.go and ValidateForCaller of service.go over a JWT
--   library that is an argument, Auth/Login is Login and LoginWithAPIKey, Auth/Erasure is DeleteAccount
--   of gdpr.go. Calls come one after another, except where a test interleaves the steps of IsRevoked.
-- Storage: internal/platform/storage/gorm.go over an engine that is an argument.
-- Prelude: names of the library, numbers, strings and association lists.
--
-- All loops run over lists or positions, so no fuel is used. Not modelled: HTTP routes, wiring,
-- generated code, the calls of external libraries (NATS, the ORM, the WebAssembly runtime, the
-- identity library), and logging.
pub mod Auth
pub mod Events
pub mod Hooks
pub mod Modulekit
pub mod Prelude
pub mod Registry
pub mod Saga
pub mod Storage
pub mod Tenancy
pub mod Wasm
pub mod Webhooks
