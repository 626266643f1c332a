-- ===== src/Lib.antt =====
-- A verification library for atrium-ddns, a DynDNS service: a device calls `/nic/update` or `/nic/delete`
-- over HTTP, is authenticated and rate limited, the host names it asks for are resolved to rows of its
-- tenant, each row's DNS backends are asked, and the results are stored, logged and answered.
--
-- Parts, and the code they are about (all under backend/src/atrium_ddns):
--
--  * Nic (router_nic.py): Dns has `aggregate`, `_run_backend` and `run_dns_phase`; Load has `load_plans` and
--    `_backend_plan`; Events has `record_event`, `record_hostname_events` and `commit_after_dns`; Persist
--    has `persist_updates`; Admit has `_admit` and `_touch_device`; Params and Handlers have the endpoints.
--  * Auth (auth_device.py): Header has `parse_basic_auth` and `client_address`, with Base64 and Utf8 for the
--    decoders that they call; Password has `_verify_sync`; Device has `authenticate_device`; RateLimit has
--    `check_rate_limit`.
--  * Scope (scope.py): the tenancy boundary, a predicate over the tables in place of a SQL clause.
--  * Provider (providers): Account, Zones and Check are `BaseProvider`; Hetzner, NsUpdate and Route53 are the
--    adapters; Registry is `register` and `get_provider`.
--  * Zone and Hostname (providers/base.py): `zone_contains` and `isvalidhostname`.
--  * Store (models.py): the tables, `resolve_backends` and `resolve_ttl`. Status: the wire tokens.
--  * Resolvers (resolvers.py): `normalise_resolvers`.
--  * Worker (worker_jobs.py): Checks is the status of one record; Health, Write and Sweep are
--    `run_health_checks`, Summary its accounting; Clear, Devices and Prune are the other jobs; Config is
--    `DdnsConfig`.
--  * Api (router.py): Zones, Backends, Hostnames and Devices are the operations of a tenant's pages; Rows has
--    their scoped reads and their deletions, Replies the errors; Sound and Secrets are about all of these
--    operations in any order. Publishing is the choice of a name's bindings and TTL, Adopt is `adopt_zone`,
--    Manual is `manual_update`, and Events is the event log with its cursors.
--  * Prelude, Text, Dict, Address: lists, Python's strings and dicts, and `ipaddress`, as far as used.
--  * Tests: concrete runs.
--
-- How state is modelled. The tables are a record of lists and a session holds the committed tables and those
-- the transaction sees; a handler takes a session and returns one. The network (dnspython, httpx, boto3) is
-- a parameter: an oracle that answers a call from the calls before it, so that its answers may depend on
-- anything. Code that asks it runs in `Exec`, which keeps the trace of calls and may end in an exception. The
-- password hasher, the secrets of the users, the clock and the outcome of the commit are parameters too, and
-- so are the settings of a request. A reading of the clock is a field of `Clock` for each place that reads it.
-- A text is a list of code points; a TTL and a rate limit are integers; an instant is in microseconds.
--
-- A health check makes several transactions. What others commit before it fetches the names, before its
-- writes, before the write of each name and before it reads the devices is a parameter, and so are the answers
-- of the resolver; the order in which its queries are sent is not modelled. The reads of the devices and of
-- their events are one transaction, and see one snapshot.
--
-- An operation of the tenant's interface answers with a row and the new tables, or with the status of the error
-- alone; a manual update is served with a session, as the endpoints are. The permissions that `require_perm`
-- asks for are taken as held; the scope of the caller is modelled. How the database compares two texts (in its
-- unique indexes, for the username of a device and in the filters of the event log), the encryption of
-- credentials, the drawn names and secrets of devices and the ids of new rows are parameters, and for
-- `manual_update` whether the credentials can be decrypted. A request's body is taken after the checks
-- of type, length and range that its model makes, where a definition does not write them out.
--
-- Bounds. The delegation walk recurses on the rounds left, one for each label of the name. Route 53's listing
-- of zones takes the number of pages that it may read as an argument of `route53`; a listing that is not
-- complete by then raises, as a failed call does. Printing a number takes one round more than the number.
-- Everything else recurses on its input. Decrypting the ciphertext of an owner whose key was unlocked is
-- taken to succeed. A time to live that is stored as a text is read for ASCII digits only.
--
-- Not modelled: the `created_at` and `updated_at` that the database keeps of rows (but for the `created_at` of
-- events and of the rate limit's rows), logging, the worker threads, the order of rows that SQL leaves open
-- (rows are in the order of their ids), the rest of router.py (the board, the listings, the health check on
-- request, the audit rows, the tallies of the event log and the printed form of its cursors), the worker's own
-- delegation walk and its scheduler, the settings form, the scripts, the migrations and the front end.
pub mod Prelude
pub mod Text
pub mod Dict
pub mod Address
pub mod Hostname
pub mod Zone
pub mod Status
pub mod Provider
pub mod Store
pub mod Scope
pub mod Auth
pub mod Nic
pub mod Resolvers
pub mod Worker
pub mod Api
pub mod Tests
