-- ===== src/Lib.antt =====
-- Mavio MCP: a gateway that serves the tools of many upstream servers over the Model Context
-- Protocol. This library models the logic of the gateway that decides, counts and remembers.
--
-- Base has what the modules share: tests, lists and their sorting, `Map` (a JavaScript Map in insertion
-- order) and texts (Base/Text: decimal numerals, the last colon; Base/Words: blanks, parts, prefixes).
-- Json is the type `unknown` of the program, and its printing.
--
-- Core is packages/core/src/index.ts: the shared types, and in Core/Breaker the class
-- `CircuitBreaker`. `execute` is `enter` and `settle`, for what happens before and after the awaited
-- function; in between, other calls run. The router calls it around each dispatch.
--
-- Rbac is packages/rbac/src: types in Rbac, action names in Rbac/Actions, the built-in roles in
-- Rbac/Roles, and `BuiltinRbacEngine` in Rbac/Engine (`can`, `expand`, `collectRolePermissions`,
-- `actionMatches`, `scopeContains`). The recursion over inherited roles takes fuel, which is enough
-- above the number of role names. The store of roles is the interface `RoleProvider`. Rbac/Remote is
-- packages/rbac-opa/src/index.ts, the engine that asks a policy service, on what the request comes to.
--
-- Transport/EventStore is packages/transport/src/event-store.ts: `MemoryEventStore`, with `append`,
-- `readAfter`, `trim`, `deleteSession`, `size`, and the event ids.
--
-- Sessions/McpSession is apps/server/src/mcp-session.store.ts: `McpSessionStore` with `register`,
-- `setClientInfo`, `preCall`, `recordOutcome`, `reapExpired` and the rest. The router calls `preCall`
-- before it dispatches a call and `recordOutcome` after it. The SHA-1 digest is an argument.
--
-- Router is apps/server/src/router.service.ts: `RouterService`. Router/Service has the gates of
-- `callTool`, last first; Router/Dispatch `dispatchByKind`; Router/Finish and Router/Report what follows a
-- dispatch; Router/Handle `handle` and the listing of tools; Router/Request what is read of a call.
-- The services behind the router are the interface `Backends` on a world of their own: only
-- `registry.get` and the calls of upstream servers may throw. One call runs at a time. The log holds
-- what goes to the audit, the traces and the metrics.
--
-- Registry is packages/registry/src: `Registry` in Registry/Servers (the operations that write) and
-- Registry/Servers/Statements (the queries), over tables of rows; the router reads it through
-- `Backends`. Registry/Diff is `diffCapabilities`. Registry/Principals is rbac-repo.ts, `RbacRepository`:
-- principals, their API keys, roles and assignments, under the constraints of migrate.ts.
--
-- Sessions/SessionStore is packages/transport/src/streamable-session-store.ts, and Sessions/Streamable
-- apps/server/src/streamable-http.session-registry.ts: `StreamableHttpSessionRegistry` on it and on the
-- event store. A write to a response may throw, as the argument `writable` says.
--
-- UpstreamAuth is packages/upstream-auth/src and its users. UpstreamAuth/Keyring is keyring.ts
-- (`EnvKekProvider`, `parseKeyring`); UpstreamAuth/Vault vault.ts and key-wrapper.ts, envelope encryption
-- under the keys of the ring; UpstreamAuth/Credentials repo.ts, the table of sealed tokens, and the sweep
-- of apps/server/src/vault-rewrap.service.ts that rewraps its rows in batches; UpstreamAuth/Admin
-- apps/server/src/vault-admin.controller.ts, whose handlers share or do not share the ring with the
-- vault; UpstreamAuth/Tokens the service of apps/server/src/upstream-auth.module.ts that the router asks
-- for a token. Ciphers, random bytes, the decoding of base64 and the providers of tokens are arguments.
--
-- Access is how a request reaches a handler: Access/Csrf (csrf.middleware.ts), Access/Principals
-- (principal-resolver.ts, federated-auth.ts) on the sessions of Access/Sessions (session.store.ts),
-- Access/Guards (auth.guard.ts, rbac.guard.ts), all in apps/server/src; `let_in` puts them in order.
-- Access/Windows is packages/cache/src/rate-limit.ts with apps/server/src/rate-limit.interceptor.ts.
-- Redis, JSON, the class URL, the cookie parser, the policy engine and the store of keys are arguments.
--
-- Imports is apps/server/src/imports.controller.ts: Imports/Runs submits and approves, Imports/Records
-- accepts, rejects and lists, with the importers as an argument. The statements of the database and
-- `router.invalidate` are taken to succeed there: what an approval leaves when one of them throws after
-- an earlier write is not modelled.
--
-- Registry/Routes is packages/registry/src/event-route-repo.ts. Events/Render is `renderArgs` of
-- apps/server/src/event-bridge.util.ts, and Events/Dispatcher apps/server/src/event-dispatcher.service.ts,
-- which calls the router of Router; the schemas' validator is an argument.
--
-- Promises that resolve are values; the clock is an argument in milliseconds, and a test such as
-- `now - then < limit` is read over the integers. Counts and times are natural numbers of any size.
-- Network, database, cryptography, the transports, the importers, plugins, the login pages, the command
-- line client and the web console are not modelled: they are calls of other services, or presentation.
pub mod Access
pub mod Base
pub mod Core
pub mod Events
pub mod Imports
pub mod Json
pub mod Rbac
pub mod Registry
pub mod Router
pub mod Sessions
pub mod Transport
pub mod UpstreamAuth
