-- ===== src/Lib.antt =====
-- A verification library for the GPU server monitor: a FastAPI application that polls laboratory
-- servers over SSH, keeps their metrics and alerts in a database, and serves them to a browser and
-- to other tools. Modelled is the backend's own logic, from its Python source.
--
-- The parts and their files (paths from the repository's root):
--   RateLimit   backend/app/rate_limit.py: `LoginRateLimiter`. A `Limiter` is the two ordered
--               dictionaries, a `Counter` their values; `check`, `record_failure` and
--               `record_success` are the methods, with the clock as an argument. Both limiters of
--               the program, for logins and for step-up confirmations, are values of it.
--   Cache       backend/app/cache.py: `InMemoryBackend` with its eviction and `invalidate_prefix`.
--               Cache/Flight is `cached`: the phases that a call passes through, and the schedules
--               of many calls over the shared `_inflight`.
--   Account     backend/app/models.py `User`, the audit log, and the conditional updates of
--               backend/app/security.py and backend/app/api/auth.py. `World` is what requests share.
--   Security    backend/app/security.py: passwords, the credential keyring, one-time codes, session
--               tokens and the two guards of the routes; Security/Proxy is `resolve_client_ip`,
--               Security/Origin is `enforce_login_origin`.
--   Login       backend/app/api/auth.py: `_authenticate`, the second factor's routes and `logout`.
--               It consults the limiter, the keyring and the accounts in the order of the code.
--   UserAdmin   backend/app/api/users.py. Its Revocation modules follow a token over all requests of
--               Login and UserAdmin in any order.
--   Alerts      backend/app/scheduler.py `_extract_metric`, `_compare` and `_eval_alerts`, and the
--               routes on events of backend/app/api/alerts.py. A `Board` is the table of events with
--               the notices handed to the notifier; Alerts/Events is the pass over rules and
--               servers, Alerts/Events/Routes the users' actions.
--   Health      backend/app/health.py: `_fire`, `_recover` and `_ttl_recover_point_events`, which
--               write to the same `Board`, the score of `gpu_risk_scores` in Health/Risk, and
--               `health_tree` in Health/Tree; Health/Baseline is `update_gpu_baseline`,
--               `_detect_gpu_missing` and `_detect_gpu_ecc`. Health/Faults is the detectors of
--               connections, throttled GPUs, kernel events and services, Faults/Devices of NVMe and arrays.
--   Notifier    backend/app/notifier.py: `_render`, `_resolve_webhook_target`, `send_webhook`,
--               `_channels` and `_dispatch`. Alerts and Health do not call it: there a notice's
--               fate is an argument.
--   Scheduler   backend/app/scheduler.py, the rest of its work: the polls in flight (`_server_begin`,
--               `_server_end`; Scheduler/Polls runs them in sequences), `_expire_maintenance`;
--               KernelLog is `_store_kernel_events`; Idle is `update_gpu_idle_state` with
--               `_backfill_idle_start`; Retention is `_archive_expired_metrics` and
--               `_retention_cleanup`; Hourly is the row that `_roll_hour` makes, Hourly/Rollup
--               `_roll_hour` and `_hourly_aggregate`, Hourly/Legacy `_upgrade_legacy_gpu_card_time`.
--   Ssh         backend/app/ssh_transport.py. Ssh/HostKeys is the directory of host keys, the storage
--               check, trust on first use and the reset; Ssh/Connect is `connect_host`,
--               `connect_server` and `replace_hostkey_with_expected_fingerprint`; Ssh/Faults is
--               `classify_ssh_error`. Ssh/Trust, Known, FirstUse and Pins are about the keys.
--   Collector   backend/app/ssh_collector.py, and `parse_kernel_log` of
--               backend/app/collectors_extra.py: the sections of a script's output, the processes,
--               GPUs, disks, the host and its traffic, each with its parsers; Collector/Fast is
--               `_parse_fast_output` and `collect`, which calls Ssh. KernelLog makes the events that
--               Scheduler/KernelLog stores.
--   Privacy     backend/app/privacy.py: what is left of a metric, as a JSON value, before it is stored
--               or shown.
--   Archive     backend/app/archive_crypto.py: the key, the bytes of an archive, the loops over its
--               chunks, and what encryption and decryption do to the files. Retention above does not
--               call it: there one Boolean says whether the archive was published.
--   Prelude     what they share: Boolean tests, lists, texts, integers, association lists in the
--               insertion order of a Python dict, and the eviction of the oldest entries.
--
-- A text is the list of its code points. A clock reading is a natural number of microseconds, and
-- one that is before zero is not modelled. A numeric column is a natural number, or an integer
-- where the code stores -1. A `for` loop is a recursion on its list. Of the two `while True` loops,
-- the walk of `_backfill_idle_start` has one more unit of fuel than its history has samples, and the
-- deletion one more than the table has rows; each round but the last takes one away at least, which
-- the theorems on them show to be enough. The loop of `_hourly_aggregate` counts to 1080, and that
-- count is its recursion. The loops over the chunks of an archive have one more unit of fuel than
-- there are bytes to read, and each round reads one at least.
--
-- Not read from the repository, and so arguments: bcrypt, Fernet, HMAC and JWT are the record
-- `Crypto`; addresses and networks are the record `Net`; `urlsplit` and `str.casefold` are
-- functions; floating point is the record `Floats`, and with the reading and the rounding of
-- numbers the record `Numbers`; Unicode's digits and word characters are the record `Letters`,
-- AES-GCM is the record `Aead`, the network of the notifier the record `Web`, paramiko the record
-- `Paramiko` with the laws of `IsClient`; how a file system answers is the record `Storage`, and the
-- servers that answer are a function of address and port; SHA-256 is a function, and so is whether a
-- notice is taken for Alerts and Health. A theorem that needs more of them says what.
--
-- A request is one step on the `World`, but for the updates of Account, which repeat their test on
-- the row as it then is, and for `cached`, whose calls interleave. A database that fails to commit,
-- but for the deletions of retention, the removal of a file that fails, the cookies and the JSON of the answers, Redis, the shell scripts that the collectors send, the
-- slow and the inventory collector, the live process list, the polls of the scheduler that call
-- `collect`, and `_detect_gpu_idle` and `_detect_storage_bottleneck` are not modelled. A file of host
-- keys is written in one step, under the lock; of what another process does meanwhile, a file that it
-- publishes under the same name is an argument.
pub mod Prelude
pub mod RateLimit
pub mod Cache
pub mod Account
pub mod Security
pub mod Login
pub mod UserAdmin
pub mod Alerts
pub mod Health
pub mod Notifier
pub mod Ssh
pub mod Collector
pub mod Scheduler
pub mod Privacy
pub mod Archive
