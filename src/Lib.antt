-- ===== src/Lib.antt =====
-- auth-profile-service: the accounts, roles and sessions of the platform, and the profile read-model
-- that is built from events. The use cases call repositories over one database, a blacklist and a
-- presence store in Redis, and a token provider. A write of the account repository commits the
-- account's events to an outbox; a dispatcher relays the outbox to Kafka; consumers route the
-- envelopes by event type and project them into the profile tables.
--
-- Which file models what, with the source's paths from the repository's root:
--   Auth/Enums, Events, Errors, RolePolicy, RoleRequest: app/domain/auth/{enums,events,exceptions,
--     role_policy,role_request}.py. Auth/User: user.py, `User` and its methods; Machine and Replay
--     are about sequences of them.
--   Profile: app/domain/profile/{profile,value_objects}.py; Profile/TopPosts is about
--     `upsert_top_posts`.
--   Database/World: app/infrastructure/db/models, and the state of the service. Database/Tables:
--     what the statements do on lists of rows. Database/Users and Profiles (with TopPosts):
--     app/infrastructure/db/repositories/{user,profile}_repository.py, a function for a method under
--     its name. Database/Redis: app/infrastructure/cache. Database/Keeps: invariants of calls.
--   Security/Settings, Passwords, Jwt: app/config.py, app/infrastructure/security/
--     {password_encoder,jwt_provider}.py; Settings/Boot is about the check at boot.
--   Sessions: app/application/use_cases/auth/{login,refresh_token,logout}.py; Tokens, Login, Refresh,
--     Logout are about them. Accounts: register_user, approve_registration, ban_user, grant_role,
--     request_role and decide_role_request there, and app/infrastructure/db/bootstrap.py; Integrity,
--     Registration, Roles, Bans, Escalation and Seed are about them.
--   ReadModel: app/application/use_cases/profile, and what app/presentation/rest/
--     profile_controller.py shows; Library and Revocation are about library_projector.py, Inventory
--     about inventory_projector.py, Visibility about the page. Messaging/Envelope, Outbox, Consumers:
--     app/infrastructure/messaging/{envelope,outbox_dispatcher,kafka_consumer_base}.py and
--     consumers/profile_event_consumers.py; Delivery, Progress and Registered are about them.
--   Directory: find_recipient, suggest_recipients, list_users, list_active_user_ids and
--     list_pending_role_requests of app/application/use_cases/auth; Recipient, Suggestions and Listing
--     are about them. Database/Search: `search_active` and `list_users` of user_repository.py, and
--     Search/Like how a pattern is read. Accounts/Views, Steps and Refinement set the use cases
--     against a machine for one account.
--   Dto: app/application/dto. Auth/Messages: the texts of the errors. Rest: app/core/{exceptions,
--     security_deps}.py; Rest/Accounts, Admin and Profiles: app/presentation/rest/{auth,role_admin,
--     profile,library}_controller.py, a route under its function's name; Callers, Guards, Pages and
--     Bounds are about them. Presence: update_presence.py and presence_ws_controller.py; Session is
--     about the socket. Messaging/Abuse: consumers/abuse_event_consumer.py.
--   Messaging/Runner: the loop of kafka_consumer_base.py and its committed offset; Offsets is about it.
--     Platform: the use cases, the relay and the consumer of user events side by side on one state, as
--     app/main.py runs them; Writes, Announced, UseCases, Relay, Handler, Consumed and Consistent say
--     what each of them keeps, Registrations and Settled what follows for an account.
--   Startup: the start and the end of the process in app/main.py, with the tasks of
--     kafka_consumer_base.py and outbox_dispatcher.py and app/infrastructure/messaging/topics.py;
--     Lifespan, Shutdown and Health are about it and its probes. Observability: app/core/{middleware,
--     context}.py, app/infrastructure/observability/{metrics,logging_config}.py and the catch-all handler
--     of app/core/exceptions.py, layered as in main.py; Requests is about a request through them.
--   Ports: app/application/ports, records of calls, filled by the repositories and the Redis stores of
--     app/infrastructure; Contract and Stores say what they promise, and are about it.
--   Json: decoded messages, and claims. Common: shared tests, lists and texts. Tests: stand-ins for
--     the third-party code, an example state, and a use of each theorem that has conditions.
--
-- How it is modelled. A table is the list of its rows in the server's order. A call is a function
-- from the state to a result and a state (`Exec`), so what was committed before a raise stays. The
-- unique email, the primary keys and the foreign keys of role requests and of what a profile holds
-- answer with an IntegrityError. A `Draw` gives the uuids and the clock, in milliseconds, of one
-- call; times in tokens are whole seconds. A poll of the outbox is given, for each row, what happens
-- to its publishing and to its commit. Every loop is structural; only the decimal text of a number has
-- fuel, one more than the number, and any more of it gives the same text. The limits are the
-- source's: five top posts, three attempts, the batch size of the settings.
--
-- A consumer reads one partition, as topics.py makes them; a run of its loop is given its turns, each
-- with what the three attempts meet and the outcome of the commit. An attempt (`Attempt`) runs the handler
-- to its end, or fails before anything is stored, or stores what the handler did and fails all the same.
-- Three attempts that fail give the message up, and the loop commits it: what is said of registrations
-- says that no message is given up and committed, and `consume_gives_up` what is lost otherwise. The platform is a sequence of acts:
-- a use case, a poll, a message from elsewhere, a run of the consumer. Each act is taken
-- as a whole, without another in between; of the consumers only that of user events takes part.
--
-- A route is a call that answers a body; its path, its parsing and the JSON of its response are
-- FastAPI's. A socket is given the sequence of what arrives on it.
--
-- Parameters: PyJWT (`Jwt`, with what it documents as `JwtLaws`), passlib (`Hasher`, `HasherLaws`),
-- `isoformat`, and Python's `str` on a value that is neither a text nor false (`printed`);
-- the server's ILIKE and its order of names (`TextSearch`, with what PostgreSQL documents of ILIKE as
-- `LikeLaws`, in a locale that folds case letter by letter, by a map that is a parameter too, from a
-- letter to one or more); what FastAPI and slowapi raise by themselves (`Framework`); the address that
-- email-validator leaves, and what slowapi says of the rate (`Checks`); what a
-- call of a client library returns or raises (`ClientCall`), the administration of the broker (`Admin`,
-- whose start and whose creation of topics may fail, with what Kafka documents of a creation that returned
-- as `AdminLaws`), and what a probe of a dependency raises (`Probe`).
--
-- Not modelled: the building of the use cases from their repositories in app/core/dependencies.py, the
-- engine and its sessions (a write is one commit), the formats of the log handlers,
-- the histogram of durations, tracing, and the intervals between polls and attempts: they are wiring or
-- configuration of third-party code around the calls above. The lengths of columns and collisions of
-- the uuids of outbox and audit rows are left out. `str.lower` is modelled on ASCII. Numbers in
-- messages are integers. The outbox keeps the value that `json.dumps` and `json.loads` carry.
pub mod Common
pub mod Json
pub mod Auth
pub mod Database
pub mod Security
pub mod Sessions
pub mod Accounts
pub mod Profile
pub mod Directory
pub mod Dto
pub mod Presence
pub mod Rest
pub mod ReadModel
pub mod Messaging
pub mod Platform
pub mod Startup
pub mod Observability
pub mod Ports
pub mod Tests
