-- ===== src/Lib.antt =====
-- The core of the service template: its transactional outbox, its authorization engine, its accounts
-- and its authentication, modelled from the Python sources.
--
-- Parts and how they interact:
-- * Outbox (src/features/outbox). A producer stages a row in the transaction of its business write
--   (adapters/outbound/sqlmodel/adapter.py: `enqueue`, in Outbox/Producer). Workers run ticks of the
--   relay (application/use_cases/dispatch_pending.py: `DispatchPending.execute`, in Outbox/Relay):
--   each claims a batch, hands every row to the job queue and marks it. The statements on the tables
--   are those of adapters/outbound/sqlmodel/repository.py, in Outbox/Repository. The sweep of
--   application/use_cases/maintenance/prune_outbox.py is Outbox/Prune, the operator's re-arm of
--   management.py is in Outbox/Producer, and the handler's check of composition/handler_dedupe.py is
--   Outbox/Dedupe. Outbox/System lets all of these interleave, with crashes, as steps on one state.
-- * Authorization (src/features/authorization). The registry of resource types
--   (application/registry.py, in Authorization/Registry) is filled at start-up and read on each
--   check; the engine (adapters/outbound/sqlmodel/adapter.py, in Authorization/Engine) walks from a
--   resource to a stored one and looks for a tuple that grants the action; its writes also bump
--   `authz_version` of the users concerned
--   (src/features/users/adapters/outbound/authz_version/sqlmodel.py).
-- * Authentication (src/features/authentication). Authentication/Refresh is the rotation of
--   application/use_cases/auth/refresh_token.py over the transaction
--   `_SessionRefreshTokenTransaction` of adapters/outbound/persistence/sqlmodel/repository.py;
--   Authentication/Store has the other statements of that file. Authentication/Login, Logout,
--   Register, Confirm (password reset and e-mail verification), RequestToken (the requests for
--   these) and Resolve are the use cases of application/use_cases/auth of the same names;
--   RequestToken writes to the outbox by its `enqueue`, and Resolve reads the principal cache.
--   Authentication/Purge is application/use_cases/maintenance/purge_expired_tokens.py, and
--   Authentication/AuditLog the route `admin_list_audit_events` of adapters/inbound/http/admin.py.
--   Authentication/RateLimit is `FixedWindowRateLimiter` of application/rate_limit.py, and
--   Authentication/PrincipalCache is `InProcessPrincipalCache` of application/cache.py.
-- * Users (src/features/users). Users/Repository is
--   adapters/outbound/persistence/sqlmodel/repository.py, whose writing methods Users/Repository/Writes
--   lists as steps; Users/Profile has the use cases on one user, Users/Pages the route
--   `admin_list_users` of adapters/inbound/http/admin.py, Users/Deactivate and Users/Erase the use
--   cases that also touch the tables of authentication
--   (src/features/authentication/adapters/outbound/auth_artifacts_cleanup/sqlmodel.py) and the outbox.
-- * Base holds lists, sorting, Python's dicts and JSON values, datetimes, keyset pagination
--   (Base/Keyset, with a client that follows the cursors in Base/Keyset/Client) and the cursors of
--   the listings (Base/Cursor).
--
-- Correspondence: tables are lists of records with the columns of the SQLModel classes; a statement
-- is a function on the list, and a transaction is one function. A UUID is the number that its bits
-- write. An instant is a number of microseconds since `datetime.min`, and arithmetic that leaves the
-- range of `datetime` or `timedelta` is OverflowError, as in Python. An exception is a value of the
-- result type of the operation. The job queue, `str` and `UUID` of identifiers, the hash of tokens,
-- the access token service, the text order of the database and the rows that other transactions
-- have locked are parameters, without assumptions on them. The cache behind the limiter and behind
-- the principal cache is a parameter with the laws that its users rely on, as records of hypotheses
-- (`IsCache`: an entry lives for its time to live, as long as no more keys than its `maxsize` were
-- written, and nothing is said of a cache that evicts; `IsTtlCache`: an
-- entry is what was last set, and may vanish). The hash and the check of passwords and `lower` and
-- `strip` of strings are parameters; a theorem that needs more of them names it as a hypothesis, and
-- `RoundTrips` are the laws of Python's formats that the cursors rely on. Random identifiers and tokens
-- are drawn from outside, and a row that is there already makes the INSERT raise, but for the ids of
-- audit events, which are taken as new.
--
-- Fuel: `nearest_leaf_type` has two rounds more than there are inherited types, and `drain` of the
-- prune and of the purge needs more than the size of the table. The walk of `check` over parents has no bound in the
-- source, where the parent of a resource is a callable of another feature: its theorems take a walk
-- that ends, and fuel above its length. A client that follows the cursors of a listing needs more
-- requests than there are rows.
--
-- Not modelled: lost connections and other failures of statements but for the constraints named,
-- logging, metrics but for the counter of the relay, tracing spans, the time that a branch takes,
-- HTTP but for the listings of users and of audit events, settings, and the features email, file
-- storage and background jobs. Of the users feature, the export; of the authentication feature, the
-- Redis limiter and the Redis cache.
pub mod Base
pub mod Outbox
pub mod Authorization
pub mod Authentication
pub mod Users
