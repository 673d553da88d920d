-- ===== src/Lib.antt =====
-- Verification library of the Rotaract 3011 API, the NestJS service under src/. Requests pass a
-- guard that resolves the caller's roles into grants; services check these grants, read and write
-- tables through repositories, and record what follows (audit entries, notifications, purged cache
-- tags); a queue sends the notifications by mail through a pool of providers.
--
-- Parts, files and code:
--
-- - Base (Tests, Lists, Codes, Texts, Maps, Errors): Boolean tests, lists, optional values, texts
--   as code points, the Map of JavaScript; the exceptions of the handlers are values of HttpError
--   (common/errors/conflict.error.ts for the codes of conflicts).
-- - Action: a handler is a function of its world that returns or throws and leaves the world as it
--   was written so far. Effects: the calls to the audit trail, the notification port, the cache
--   and the district calendar, as a list in the order of the calls.
-- - Db: the database client as a record of operations on one table with the laws that it
--   documents; Db/ListTable shows that a list of rows meets them. Services are defined over any
--   such table.
-- - Access: src/common/types, src/common/scope and src/rbac. Types holds the data of access.ts and
--   permission-keys.ts, Resolver is RbacResolverService, Guard is PermissionGuard.canActivate,
--   Scope is ScopeRepository and ScopeService. The queries for grants and clubs are parameters.
-- - Bookings: src/drr-bookings. Types holds the rows and inputs, Reference is
--   booking-reference.util.ts, Service is DrrBookingsService with the methods of its repository,
--   Calendar is the status of days in getPublicCalendar. The clock, the random indices and fresh
--   ids are fields of Env.
-- - Notifications: src/notifications. Rewrite is email/recipient-rewrite.ts, Usage is
--   email-usage.repository.ts, Pool is email/email-provider-pool.service.ts, Outbox is
--   notification-outbox.repository.ts, Sender is processSend of notification-send.processor.ts,
--   Dispatch is resolveRecipients of notification-dispatch.service.ts, Dispatch/Queue the rest of
--   that file with createQueued and the sweep. Clock and transports are functions of an outside
--   state that every call may change; trim and toLowerCase are parameters, as is the rendering of
--   templates.
-- - Standings: src/subdomains/rcl/standings.ts, computeStandings without the net run rate and the
--   sorting. The objects of the map are entries of a list, changed in the order of the
--   assignments, so that a team that plays itself is one object.
-- - Reports: src/reports. Service is update, addQuery and replyQuery of ReportsService with the
--   methods of its repository, Filing is create and get, Status is about the changes of a report's
--   status. Validation and deadline are fields of Env.
-- - Events: src/events. Types holds the rows and inputs, Slug is showcase/slug.util.ts and the
--   loop of uniqueSlug (Laws: it ends; Shape: the form of a slug), Token is
--   event-checkin-token.util.ts with the digest and the encodings as parameters, Gate is checkin
--   and removeCheckin of EventsAdminService (Visitors: who stands at the gate; Admission,
--   Capacity, Replay), Service is create, update, remove and rsvp (Authority, Creation, Changes,
--   Ownership); whether the database takes a row of an event is a parameter. Redis is a record
--   with the documented law of SET NX; that it forgets a pass after seven days is left out, since
--   a pass does not last longer.
-- - Roles: src/rbac without the resolver and the guard. Types holds the rows and inputs,
--   Permissions is resolvePermissionIds, Service is RolesService for roles and grants, Accounts is
--   its createUser, updateUser and deleteUser, both with the queries of rbac.repository.ts;
--   Grants, Scopes, Grounded and Administration are about them. Action/Triples has the rules for
--   what holds after a handler.
-- - Ride: src/subdomains/ride/ride-auth.service.ts. Types holds the data, with Redis as a record
--   of the commands used (an error of a command is none) and its laws, Tokens signs and verifies,
--   Sessions keeps the sessions in memory and in Redis (Bounds, Admission, Listing, Revocation,
--   Owners, Keys, History), Accounts is the sign-in, the participant behind a token and the reset
--   of a password (SignIn, Resets). Session ids, tokens and passwords are lists of code units.
-- - Members: Csv is src/members/csv.util.ts, the reader of the import, and serializeCsv of
--   src/reports/reports-export.service.ts, the writer of the exports (RoundTrip: rows; Lines:
--   tables).
-- - Points: src/points. Evaluation is engine/evaluate-rule.ts over any type of numbers with the
--   operations that the code uses, and adapters/dues-bracket.ts; Period is engine/period-scope.ts,
--   with months as numbers; Entries is recompute of engine/points-engine.service.ts with the
--   queries of points-entries.repository.ts, a failed transaction giving the old table back; the
--   rounding of the points by their column, and what the database refuses, are parameters (Book:
--   the awards that the entries stand for; Rows, Steps, Refinement: the table implements it).
--
-- Bounds: the allocation of a booking reference makes five attempts, as REFERENCE_ATTEMPTS says,
-- and its recursion counts them down. The printing of a number in decimal runs on fuel one above
-- the number, which has at most that many digits. The loop of uniqueSlug runs on fuel one above
-- the number of events, which is enough, as its candidates differ. No other definition runs on
-- fuel. Numbers are natural numbers; where the code subtracts times, a clock that runs backwards
-- gives 0 here and a negative number there, which the comparison with the cooldown does not tell
-- apart.
--
-- Asynchronous calls are run one after the other; concurrent requests are not modelled. Not
-- modelled are also the message texts of exceptions (except those that the outbox stores), the
-- payloads of audit entries and notifications, the listing and paging of bookings, blocks of the
-- calendar as rows, the transports, the validation and the listing of reports, the adapters that
-- give the inputs of point rules, the judged entries, tickets and wallet passes of events, the
-- rest of the import of members, and the services for members, forms and the public pages.
pub mod Base
pub mod Action
pub mod Db
pub mod Effects
pub mod Access
pub mod Bookings
pub mod Notifications
pub mod Standings
pub mod Reports
pub mod Points
pub mod Events
pub mod Roles
pub mod Members
pub mod Ride
