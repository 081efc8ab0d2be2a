-- ===== src/Lib.antt =====
-- The Memegy backend: users upload short videos to an HTTP API, a worker transcodes them, and the API
-- serves, moderates and protects them. This library models the worker, the services of the API that
-- keep state, its rate limiters, the guards before its handlers, and its uploads, likes and tickets.
--
-- The parts, and how they meet. The API (src/api) writes a row of `videos` and puts a job on a queue;
-- the worker (src/worker) takes the job, downloads the raw file, probes and transcodes it, uploads the
-- result and publishes the row. Reports of users (abuse_report_service) may quarantine a published row.
-- The session service hands out access and refresh tokens; the ban service is asked about the
-- user and the address of a request. A guard in front of the handlers asks it, and handlers ask the
-- rate limiter on Redis. Uploads.Published joins the confirmation of an upload with the run of its job by
-- Worker, Guard.Passed joins the guard with the bans of Bans, and Accounts.Drift joins the removal of
-- accounts with the counts of Likes.
-- The crate src/shared holds the rows of the tables, the configuration and the clients of Redis and of
-- the object store.
--
-- - Video: the row of `videos` (src/shared/src/entities/videos.rs) and the video states
--   (src/shared/src/video_status.rs).
-- - Worker: src/worker/src/main.rs. Worker.World has the configuration, the answers of the outside
--   and the state, which is the `videos` table and the list of effects. Worker.Error has
--   `ProcessingError` and the cleaning of messages; Worker.Media has the calls of ffprobe and ffmpeg
--   and the transcode profiles; Worker.Process has `process_video` and the signals; Worker.Retry has
--   the retry loop of `main`, the FAILED mark and the loop over the queue.
-- - Auth: src/api/src/auth/service.rs, `refresh_access_token` and what it calls in revocation.rs and
--   src/shared/src/security.rs. The state is the table of refresh tokens and the revoked access tokens.
-- - Moderation: src/api/src/services/abuse_report_service.rs, every operation. The state is the tables
--   `videos` and `abuse_reports`, and a count of the invalidations of the public caches.
-- - Bans: src/api/src/services/ban_service.rs, every operation. The state is the two tables of bans,
--   the cache in Redis with the time at which each entry is dropped, and the version of the address
--   bans.
-- - Username: src/api/src/users/username.rs, the validation of usernames and their suggestion from a
--   name. A text is the list of its characters' codes.
-- - Limiter: src/api/src/middleware/rate_limit.rs, the rate limiter in memory.
-- - Counters: src/api/src/services/rate_limiter.rs, the rate limiter on Redis. The state is the counters
--   with the time at which each is dropped.
-- - Realtime: src/api/src/realtime/hub.rs, the connections of users and their buffered messages. A
--   fanout is two steps, between which other operations may come.
-- - Api: src/api/src/error.rs, the errors and results of the handlers.
-- - Guard: src/api/src/services/client_ip.rs and src/api/src/middleware/platform_mode_guard.rs and
--   ip_rate_limit.rs, what a request passes before its handler.
-- - Uploads: src/api/src/videos/handlers.rs, `init_upload`, `init_anonymous_upload` and, in
--   Uploads.Confirm, `confirm_upload`. The state is the table `videos`, the queue of jobs, and what was
--   invalidated and signalled.
-- - Likes: src/api/src/videos/handlers.rs, `set_like_video` and `unset_like_video`, on the tables `videos`
--   and `likes`.
-- - Tickets: src/api/src/videos/handlers.rs, `create_send_ticket` and, in Tickets.Redeem,
--   `redeem_send_ticket_media` as its check and its update of the row, which other clients may separate.
-- - Deletion: src/api/src/videos/handlers.rs, `delete_video` and `bulk_delete_videos`, which mark rows.
-- - Codes: src/api/src/cache/otc_cache.rs, the one-time codes in Redis. The GET and the DEL
--   of a use are two steps, and what other requests do between them is an argument.
-- - Accounts: src/worker/src/account_cleanup.rs, one round of the clean-up, with the cascade of
--   src/shared/migration.
-- - Base: names of the libraries, lists, results and integers that the others share.
--
-- The conventions. A database, Redis, an external program and a library are a record `World` of their
-- answers, one of them for each call that can fail, so that a theorem over all worlds covers every
-- failure. A transaction works on a copy of the tables, which its commit puts in place. Uuids are
-- numbers, and times are whole seconds, where the source has fractions; one call of an operation reads
-- the clock once. Log lines and metrics are left out.
--
-- Bounds and fuel. The only fuel is the retry loop's: `attempts` gives it as many rounds as attempts
-- are configured, which is enough because the attempt counts from 1 and grows in each round. The loop
-- over the queue is a recursion on the jobs that arrive. Every other function is structural.
--
-- What is not modelled: the routers, the other handlers and the extractors of the HTTP layer (the feed,
-- search, administration, profiles), registration and login with Google, the cache of the feed,
-- bulk download of the worker, the configuration's parsing, and the migrations but for
-- the cascade. Network addresses as a library parses and prints them, hashing, token encoding and the
-- media programs are parameters. Sizes, counts and sums are numbers without the bound of 64 bits, except
-- where a comment at the definition says that they wrap around.
mod Base
pub mod Video
pub mod Worker
pub mod Auth
pub mod Moderation
pub mod Bans
pub mod Username
pub mod Limiter
pub mod Realtime
pub mod Counters
pub mod Guard
pub mod Api
pub mod Likes
pub mod Accounts
pub mod Uploads
pub mod Tickets
pub mod Deletion
pub mod Codes
