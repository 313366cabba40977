-- ===== src/Lib.antt =====
-- The server of the study room SDK: rooms with members and an owner, join requests, study sessions,
-- chat messages, presence, and what is published of them.
--
-- A request comes to a controller (server/src/rooms/rooms.controller.ts and its siblings), which calls
-- a service. A service checks the caller's membership, reads and writes PostgreSQL through Prisma,
-- drops or writes presence keys in Redis, and answers; the controller then publishes events.
--
-- Which file models what:
--   Domain, Domain/Wire, Domain/World   server/prisma/schema.prisma, server/src/domain.ts, the wire
--                        types of server/src/generated/contract-types.ts, and the state of it all
--   Service/Monad        exceptions, transactions, try and catch; Service/Keeps, Service/Ensures: invariants
--                        and what holds after these
--   Database             the client's writes with the constraints of server/prisma/migrations
--   Page, Page/Walk      the cursor pagination that every list method repeats
--   Text, Text/Split     string equality, trim and split
--   Rooms/Defs, Methods, Requests       server/src/rooms/rooms.service.ts; the other files of Rooms
--                        hold its theorems
--   Sessions, Chat       server/src/sessions/sessions.service.ts, server/src/chat/chat.service.ts
--   Idempotency, Idempotency/Canonical  server/src/common/idempotency.service.ts
--   Presence, Presence/Keys             server/src/realtime/presence.service.ts
--   RateLimit            server/src/common/rate-limit.service.ts
--   Retention            server/src/operations/retention.service.ts
--   RateLimit/Guards     server/src/common/ip-rate-limit.guard.ts and tenant-rate-limit.guard.ts
--   Applications         server/src/applications/applications.service.ts
--   Applications/JwksUriPolicy          server/src/applications/jwks-uri.policy.ts
--   Sockets, Gateway     server/src/realtime/realtime.gateway.ts; Gateway/SocketIo: what it uses of
--                        Socket.IO; Gateway/Expiry: the timers of a token; the other files of Gateway
--                        hold its theorems
--   Claims, Auth, Auth/Clients          server/src/auth/auth.service.ts and auth.guard.ts
--   Startup              server/src/common/runtime-config.ts, the origins of server/src/main.ts
--   Startup/Shutdown     the handlers of signals in server/src/main.ts, server/src/telemetry.ts
--   Operations           server/src/operations/operations.controller.ts and metrics.interceptor.ts,
--                        server/src/common/request-context.middleware.ts and
--                        server/src/telemetry-marker.ts, and the handlers of
--                        server/src/redis/redis.service.ts
--   Errors               server/src/common/api-exception.filter.ts
--   Realtime, Realtime/Envelope, Api    server/src/realtime/realtime.publisher.ts and the controllers
--   Api/Bodies, Api/AdminBodies         constraints of server/src/generated/request-dtos.ts on typed
--                        bodies
--   Departures           the routes with which a membership ends, together with the gateway
--   Contracts/Schema, Contracts/Generator   server/tool/generate-contracts.mjs: what it writes for the
--                        properties of requests; Contracts/Validation: what the validation library does
--                        with that; Contracts/Dtos: the classes of
--                        server/src/generated/request-dtos.ts; the other files of Contracts hold
--                        theorems
--   Tests                concrete worlds, and the theorems at them
--
-- How it is modelled. A table is the list of its rows, a where clause a Boolean test on a row.
-- Identifiers are only compared, so they are numbers; a text is the list of its UTF-16 code units; a
-- time is a number of milliseconds. An action takes the world to an outcome, a value or an exception,
-- and the world after it; a transaction that throws takes the database back. An argument `others`
-- is what other requests do to the world between the checks of a method and its writes; it can be
-- any function, and in the histories it is any history of calls. The clock and the identifiers that
-- are drawn are an argument `Ambient`. Loops run along lists, but for the chain of timers of a
-- socket, whose fuel is one unit for each timer, and the digits of a printed number, which have fuel
-- for more digits than there are. An instance of the server is its sockets, the topics that they
-- have joined and the world; its histories are sequences of steps in which a step of a handler may
-- have any further history between its check and what follows it.
--
-- Parameters stand for the code of others: `Seek` for how Prisma applies a cursor, `Digest` for
-- SHA-256 of the canonical JSON of a request (Idempotency/Canonical has the canonical JSON itself,
-- with `sha256` and the comparison of names `before`), `length_of` for how the validation library
-- counts the characters of a string, `Adapter` for Socket.IO with the laws of joining and leaving,
-- `Jwt` for the libraries that decode and verify tokens and fetch keys, `ClassValidator` for the
-- validation library and the conversion to numbers before it, `parse_url` for the URL parser,
-- `number` for `Number` of a label of a host name, `wake` for the timers of the platform, of which
-- something is supposed only for delays that they take, and `upsert_throws` for what the database
-- throws at the row of a user. Where an identifier comes from a text, `id_of` says which one.
--
-- What is not modelled: foreign keys to tenant users (the callers' rows are taken to be there),
-- column lengths, the 32-bit range of a room's version, the identifiers of audit rows (an event's
-- is in Realtime/Envelope, not in the lists of what is published), the isolation of reads within
-- one transaction from other transactions except where `others` stands, the pauses between a
-- service's last write and the reading of its answer, the status names in the message of a refused
-- move, log lines, the registry of metrics, several instances with messages between them, what
-- happens between two writes of a handler of the gateway, the exporter of telemetry, and the wiring
-- of the framework. Of server/tool, the printing of classes and the Dart and realtime parts of
-- generate-contracts.mjs are left out, and the tests of a running server. The Dart client, in
-- another language, is not modelled.
pub mod Base
pub mod Domain
pub mod Service
pub mod Presence
pub mod Text
pub mod Page
pub mod Database
pub mod Idempotency
pub mod Rooms
pub mod Departures
pub mod Sessions
pub mod Chat
pub mod Retention
pub mod RateLimit
pub mod Realtime
pub mod Sockets
pub mod Gateway
pub mod Api
pub mod Contracts
pub mod Tests
pub mod Errors
pub mod Applications
pub mod Claims
pub mod Auth
pub mod Startup
pub mod Operations
