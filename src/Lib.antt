-- ===== src/Lib.antt =====
-- A group chat: a NestJS API over Postgres (Prisma), a Socket.IO gateway, and BullMQ workers that
-- post a daily summary. This library models the services that own its state.
--
-- Schema: the tables of backend/prisma/schema.prisma. A service method takes the tables (Db) and
-- returns an Outcome (Events): the tables after it, the in-process events that it emits
-- (backend/src/groups/group-events.ts, messages/message-events.ts) and its value or exception
-- (Http). Unique constraints and foreign keys are checked by the insert functions. Fresh ids,
-- random values and the clock are arguments. RequestId is an id as a request spells it, with the
-- uuid that the database reads from it.
--
-- Groups: backend/src/groups/groups.service.ts, method by method (create, join, leave, transfer,
--   assertMember, markRead, findMyGroups, findOne). A transaction is one step, except in
--   Groups/Race, which takes two transfers apart into their reads and their writes.
-- Messages: backend/src/messages/messages.service.ts; Cursor: backend/src/common/utils/cursor.ts.
--   Node's JSON, Buffer and Date and the uuids of Postgres are the record Platform, with their
--   round trips as IsLawful; ILIKE is a parameter of search. A client that follows nextCursor runs
--   on fuel, of which one more than the number of messages is enough.
-- Reactions: backend/src/messages/reactions.service.ts; Reactions/Concurrent interleaves two calls.
-- Tokens: backend/src/auth/token.service.ts and refresh-token-purge.service.ts. The digest is a
--   parameter, and no theorem asks more of it than that it is a function.
-- Accounts: backend/src/auth/auth.service.ts and backend/src/users/users.service.ts. The password
--   hasher is a parameter. Accounts/Google: backend/src/auth/google.service.ts, with what Google's
--   library answers for a token as a parameter.
-- Summary: backend/src/summary, messages/summary-messages.service.ts, queues/queue.constants.ts and
--   ai/ai-summary.service.ts. The reply of the model is a parameter. One run of a flow reads the
--   tables when it fetches and meets later ones when it saves.
-- Chat: backend/src/chat: rooms, presence and the handlers of the gateway, over the list of the
--   connected sockets; Chat/Broadcast holds what the gateway does with the services' events.
-- Bodies: the DTOs of backend/src/messages/dto, groups/dto and common/dto, and the uuid pipe.
--   class-validator, class-transformer and the Unicode tables are the record Validators.
-- Storage: backend/src/storage/storage.service.ts: under which name a file is stored, and what is
--   returned of it. The two backends are an argument that says whether they took the bytes.
-- Routes: the three controllers of backend/src/groups and backend/src/messages behind JwtAuthGuard
--   and GroupMemberGuard; a request is a Route with its raw parameters, and the access token has
--   become the user that it names. The libraries, the clock and the fresh ids are the record Env.
--   A form that multer refuses, by its limit of 1 MiB for a field, is not a request here.
-- Client: frontend/src/lib/socket/socket-provider.tsx and lib/queries/messages.ts: the cached
--   values of one group under their keys, the handlers of the socket's events, and the merged
--   list. Client/World joins them to the server: each method is followed by the delivery of its
--   events.
-- Client/Roster: the member list of a group's page, lib/queries/groups.ts beside GroupsService;
--   Client/Races: an answer that arrives after an event. A fetch is one step elsewhere.
-- Client/Receipts: frontend/src/components/messages/message-list.tsx, who has seen the last own
--   message, and when a reading is reported. Client/Paging: the button for older messages, pressed
--   once more than the group has messages, which is enough.
-- Composer: message-composer.tsx beside it, and MessageRow: message-row.tsx and
--   message-actions.tsx: the state of each, and what it sends; the browser and React are left out.
-- Client/Chips: frontend/src/components/messages/reaction-chips.tsx, its counting. Typing:
--   frontend/src/lib/socket/use-typing.ts, what it receives and when it expires, and what it sends;
--   Typing/Bursts takes a list of the pauses between keys, and news arrive when they are sent.
-- Panel: frontend/src/components/groups/members-panel.tsx, its buttons and warnings beside the
--   methods of GroupsService that they call.
-- Online: frontend/src/lib/socket/use-group-room.ts beside the gateway: sockets come, enter rooms,
--   leave them and go; what the gateway emits is heard at once.
-- Duration: backend/src/common/utils/duration.ts.
-- Config: backend/src/config/env.validation.ts and intFromEnv() of queues/queue.constants.ts.
-- Session: frontend/src/lib/api/client.ts, session.ts and auth.ts and lib/auth/auth-context.tsx:
--   the tokens, the pending refresh and the status of a tab; a promise is the state between its
--   call and its answer. Session/Browser is two tabs that share the
--   localStorage; signing a token is an argument there.
-- Uuid: backend/src/common/utils/uuid.ts; Http and Http/Filter: the exceptions, and what
--   backend/src/common/filters makes of them.
-- Base: lists, sorting, texts (lists of UTF-16 code units) and tests on numbers, shared by all.
-- Examples: the theorems at concrete inputs.
--
-- Not modelled: the checks of a password, of a JWT and of a Google token's signature, the
-- validators of files and of the accounts' bodies, writing bytes to a storage, health checks and
-- bootstrap, which call libraries, BullMQ's retries and rate limits, the transport of the sockets,
-- and the markup, forms and pages of the web client (frontend/src/components and frontend/src/app).
pub mod Base
pub mod Http
pub mod Schema
pub mod Events
pub mod Uuid
pub mod Groups
pub mod Cursor
pub mod Messages
pub mod Tokens
pub mod Reactions
pub mod Summary
pub mod Chat
pub mod Accounts
pub mod Bodies
pub mod Storage
pub mod Routes
pub mod Session
pub mod Typing
pub mod Client
pub mod Config
pub mod Composer
pub mod MessageRow
pub mod Panel
pub mod Online
pub mod Duration
pub mod Examples
