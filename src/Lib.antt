-- ===== src/Lib.antt =====
-- btravstack: the container, the kernel and the in-process adapters, modelled and proved.
--
-- btravstack composes server applications. An application is a tree of modules of providers, which
-- the container (packages/di) sorts into levels, constructs, and tears down in a scope. The kernel
-- (packages/core) builds that tree, starts the runtime that it exports, counts the units of work that
-- the runtime runs, drains them when it is asked to stop, and reports how the process ended.
-- Listings are paged by keysets (packages/contract); adapters store messages, cached values and
-- objects (packages/outbox, packages/cache, packages/storage). The environment is read into typed
-- settings (packages/config); the domain is entities and event-sourced aggregates (packages/entity);
-- requests come in through authentication and sessions (packages/http-server) and go out under a fixed
-- policy (packages/http-client); keys are derived for one purpose each (packages/keys).
--
-- The parts, the files that model them, and the code they stand for:
--   Common      what the parts share: tests, lists over native numbers, permutations, insertion-ordered
--               maps as JavaScript has them, results that carry an error, texts as lists of code units.
--   Di          packages/di/src. Flatten, Overrides and Plan are `flatten`, `resolveOverrides` and `plan`
--               of build.ts; Context is context.ts and Scope is scope.ts; Lifecycle is `constructLevel` and
--               `runStartHooks` of lifecycle.ts; Build is `run` and `runScoped`, and Build/Entries the three
--               entry points of module.ts. A provider or a port class is compared by reference in the
--               code, and by a number here. A throw is a `defect`; effects are a log of events.
--   Core        packages/core/src. Phase is phase.ts, Units is units.ts, Drain is drain.ts, Kernel the state
--               and the closures of `start` in start.ts with process-handlers.ts, Exits is run-main.ts, Health
--               is health.ts with health-monitor.ts and probes.ts, Trace is the header parser of runtime.ts.
--               Kernel/Runs runs the closures in every order, so no scheduling is assumed.
--   Contract    packages/contract/src/pagination.ts: pages, keysets and cursors.
--   Outbox      packages/outbox/src: Store is memory.ts; Relay and Slots are the relay of relay.ts.
--   Cache       packages/cache/src: the backend of memory.ts, and `readThrough` of cache.ts in Through.
--   Storage     packages/storage/src/memory.ts and options.ts.
--   Config      packages/config/src/config.ts: Fields are `Config.string` to `Config.pinned`, Schemas is
--               `Config.object` and `Config.parse`.
--   Entity      packages/entity/src: Doors is `make`, `inspect`, `update`, `factory` and `sameIdentityAs` of
--               entity.ts, Aggregate is aggregate.ts, with the checks of a declaration in Declared; Issues is
--               issues.ts. A value is one of a type that the schemas share; a missing one is `none`.
--   HttpServer  packages/http-server/src: Cookies is cookie.ts, Redirects is redirect.ts, Auth is the walk of
--               auth.ts with scope-challenge.ts, Auth/Keys is api-key.ts, Sessions is the codec of
--               session.ts and Sessions/Scheme its `sessionAuthenticator`.
--   HttpClient  packages/http-client/src: Requests is `createHttpClient` of client.ts with private-origins.ts,
--               Ranges is address.ts, Exchanges the callbacks of `exchange`, run on events in every order.
--   Keys        packages/keys/src/derive.ts.
--   Tests       the theorems at concrete inputs.
--
-- Bounds and fuel: the loop of `plan` has one round for each provider, which is enough since each
-- round places one; `Contract.Pagination.Walk.walk` has one page for each row and one more, which is
-- enough since each page but the last shows one, and it answers `none` where it is not; `print_number` has one digit for each unit of fuel, and a number
-- has at most as many digits as one more than it. All other recursion is structural. Numbers are natural: a clock
-- that runs backwards is not modelled.
--
-- Code of other packages is a parameter. unthrown's `allAsync` and the order in which the providers of
-- a level settle are the record `Di.Lifecycle.Settling`, with what the code relies on as its laws, and
-- `allAsync` over health checks is `Core.Health.Gathering`;
-- JavaScript's `encodeURIComponent` and `decodeURIComponent` are the record
-- `Contract.Pagination.Cursors.Uri`; the SHA-256 digest is an argument of the storage and of API keys.
-- The parse of a schema by zod is a field of an entity and of an aggregate, and unthrown's
-- `all` is the record `Entity.Combine`; `URL.canParse` and the rounding of `Number` are arguments of the
-- settings (`Config.Doubles`); encryption is the record `HttpServer.Sessions.Cipher`, of which a key opens
-- what it locked and no other key does (`IsLocked`); the URL parser, `isIP` and the addresses they read
-- are the record `HttpClient.Requests.Platform`; HKDF is an argument of `derive_key`.
--
-- `deepFreeze` of packages/entity/src/freeze.ts is the repository's own, and left as a function of one
-- value, a field of an entity; of the fork of a unit's scope in the kernel only its reports of teardown
-- errors are there.
--
-- Not modelled: types, which the compiler checks; input and output (HTTP, Redis, S3, SQL, brokers,
-- Temporal, mail); the rest of that fork; the clocks that a drain races; a
-- listener of an abort signal that opens units; unions of entities, abstract entities and the schemas
-- derived from an entity; JSON Web Tokens, OpenID Connect and the metadata of protected resources; client
-- certificates and the headers of a response; root keys and key services; the packages that are not
-- named above.
pub mod Common
pub mod Di
pub mod Contract
pub mod Core
pub mod Outbox
pub mod Cache
pub mod Storage
pub mod Entity
pub mod Config
pub mod HttpServer
pub mod HttpClient
pub mod Keys
pub mod Tests
