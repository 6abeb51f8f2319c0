-- ===== src/Lib.antt =====
-- Furtalk, a server for comments on static pages: a verification library of its core.
--
-- The program. Widgets on the pages of registered sites and a first-party console call the service
-- layer (internal/service), which keeps its rows in a relational database (internal/repository,
-- migrations) inside transactions (internal/platform/gormtx). A comment is created by a user or an
-- anonymous visitor, passes a captcha and a chain of spam detectors, waits for moderation or is
-- published, is answered, pinned, deleted softly or for good. Administrators manage users; a rate
-- limiter stands before the endpoints.
--
-- The shape of the model. `Db` (Store.antt) is the database: the tables as lists of rows, the events
-- handed to the bus, and the next identifiers. A service call is an `Action`: it takes a database to
-- a result or an error and the database that it leaves; `run_in_tx` undoes the writes of a body
-- that fails, as RunInTx does. Commands are do blocks with the calls of the source in its order.
-- Calls run one after the other: the source serialises changes of administrators by a mutex and
-- changes of rows by locks, and the interleaving of transactions is not modelled.
--
--   Base, Base/*          names of the libraries passed on, tests, lists, counting, one `==`
--   Domain, Domain/*      internal/domain/types.go and errors.go: enumerations, errors, rows
--   Text                  strings.TrimSpace and len over code points; internal/platform/value
--   Store                 the database, actions, internal/platform/gormtx/tx.go
--   Store/Comments, /*    internal/repository/comment.go and the cascades of migrations
--   Store/Users, Threads  internal/repository/user.go and thread.go
--   Store/Contract        rules for what a call keeps and returns, one for each way to build it
--   Store/Atomic          calls that change nothing when they fail
--   Views                 toCommentView, viewFor, adminViewFor of internal/service/comment
--   Moderation, /*        internal/service/comment/moderation.go, deletion.go, pinning.go
--   Batch, /*             internal/service/comment/batch.go
--   Creation, /*          internal/service/comment/create.go, captcha.go, spam.go, widget.go
--   Identity, /*          internal/service/identity/batch.go, admin.go, service.go
--   Ratelimit, /*         internal/platform/ratelimit/ratelimit.go
--   Store/Likes, Likes, /* internal/repository/comment_like.go, internal/service/comment/like.go
--   ThreadAdmin, /*       internal/service/comment/thread_admin.go and thread_batch.go
--   Cache, /*             internal/platform/cache/memory.go and namespace.go
--   Onetime, /*           internal/platform/onetime/onetime.go
--   Authorization, /*     internal/service/comment/widget_session.go and authcode.go
--   Cursor, /*            internal/service/comment/cursor.go
--   Tests, /*             a small database on which every theorem is applied
--
-- A row of `comments` is sound (Moderation/Rows) if its status fits its columns (pending: no time of
-- publication; published: one; deleted: the status before and the time of the deletion; and those
-- two in no other status) and if only a root of depth 0 is pinned.
--
-- Numbers. Identifiers, times and counts are natural numbers; no modelled code reaches the bounds of
-- int64, and a negative identifier, which the commands refuse, does not exist here. The rate limiter
-- counts tokens in exact units where the source uses float64. The fuel of the cascade of deletions
-- (Store/Comments/Cascade) is the number of rows, which is enough: each of its rounds but the last
-- takes a row out. The loop of VerifyAndConsume (Onetime) runs over a list of rounds, each with what
-- other calls do to the cache in its middle. The fields of cursors are signed and within int64
-- (Cursor/Decimal); a number is enough fuel to print its own digits.
--
-- The cache is a state of its own: `Memory` (Cache.antt) has the entries with the times at which they
-- expire and the members of the namespaces, and every call takes a `Memory` to an answer and the one
-- that it leaves. Cache/Calls has all these calls as data, with their times and contexts. Cache/Ttl
-- says what a cache is for, a map with times that has no bound and evicts nothing, and
-- Cache/Refinement compares the two call by call; one-time credentials (Onetime) and the codes of
-- widgets (Authorization) are kept in namespaces of the cache.
--
-- Arguments of the model. Code of other packages that is not modelled stands as an argument: parsing
-- of e-mail addresses, URLs, IP addresses and user agents, Markdown validation, the captcha gateway,
-- the answers of the spam detectors, the cache of authorisations and the policy on e-mail domains,
-- the codecs of JSON and of base64, SHA-256, random codes and the JWT service.
--
-- Not modelled: HTTP handlers, configuration, logging, cryptography and network clients, which are
-- glue over other packages; the cache in Redis and the fallback of namespaces for other stores;
-- settings, sites, notification, login, passkeys, OAuth and listings, which later parts can add;
-- the sharing of one load among callers of GetOrLoad at the same time (singleflight); failures of
-- the database itself; `updated_at`, which the database layer sets.
pub mod Base
pub mod Domain
pub mod Store
pub mod Text
pub mod Views
pub mod Moderation
pub mod Likes
pub mod Identity
pub mod Creation
pub mod Batch
pub mod ThreadAdmin
pub mod Cursor
pub mod Ratelimit
pub mod Cache
pub mod Onetime
pub mod Authorization
pub mod Tests
