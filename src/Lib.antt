-- ===== src/Lib.antt =====
-- NanoLink, the URL shortener: a model of its core in Go, and what is proved of it.
--
-- The program keeps links (a short code and a long URL) in PostgreSQL, caches them in Redis, and puts
-- two Bloom filters in front of both, one in the process and one in Redis. ShortenURL takes an
-- identifier from a Snowflake node, writes it in Base62, inserts the row, adds the code to the filters
-- and warms the cache. ResolveURL asks the filters, then the cache, then the table. A request to
-- shorten first passes a token bucket, kept by a Lua script in Redis or, when Redis fails, in memory.
-- A redirect publishes its click to a stream in Redis, from which a worker moves batches of clicks to
-- ClickHouse. The router puts each handler behind the middleware of its route.
--
-- Which file models which part:
--   Prelude     shared helpers: Boolean tests, lists by number, strings, maps, Go's int64 as unbounded
--               integers with their 64-bit patterns, float64 as a parameter, results with an error.
--   Base62      internal/pkg/base62/base62.go: encode, decode (Base62Encode, Base62Decode).
--   Snowflake   internal/pkg/snowflake/snowflake.go: Node, new_node, generate (NewNode, Generate);
--               Threads: goroutines in Generate, interleaved at each reading of the clock.
--   Bloom       internal/pkg/bloom/bloom.go: new_bloom_filter, hash, add, contains.
--   TokenBucket internal/pkg/tokenbucket/tokenbucket.go: new_token_bucket, allow.
--   RateLimit   Script: tokenBucketScript and EvaluateTokenBucket of internal/storage/redis/redis.go;
--               Expiry: calls of the script on one key, which Redis drops at its deadline;
--               Service: internal/service/rate_limiter_service.go; Isolation: many clients of it.
--   Models      the records of internal/models/models.go, but for User.
--   Storage     Postgres: internal/storage/postgres/url_repo.go; Redis: SetURL, GetURL and
--               InvalidateURL of internal/storage/redis/redis.go, and internal/storage/redis/bloom.go;
--               Stream: internal/storage/redis/stream.go; ClickHouse:
--               internal/storage/clickhouse/clickhouse.go.
--   UrlService  internal/service/url_service.go and bloom_service.go: World holds the state and the
--               actions of BloomService; Shorten and Resolve the methods of URLService; Interleaved the
--               commands of concurrent requests, and Simulation the methods as runs of these;
--               History the calls of the methods one after the other, and Gone a deleted link.
--   Analytics   the event of a click in internal/service/analytics_service.go.
--   Worker      internal/worker/analytics_worker.go: new_analytics_worker, process_batch, start
--               (NewAnalyticsWorker, processBatch, Start); Fleet: the commands of several workers
--               of one group, in any order.
--   Api         RateLimiter and Auth: internal/api/middleware/rate_limiter.go and auth.go; Messages and
--               Handlers: internal/api/handlers and RecordClick and GetStats of AnalyticsService;
--               Router: internal/api/router.go and the labels of internal/api/middleware/metrics.go;
--               Metrics: MetricsMiddleware;
--               Handling: rules for a relation that every handler keeps.
--   Process     what cmd/server/main.go starts: requests, the goroutines of the handlers and the ticks
--               of the worker, in any order; Restart: such runs one after the other, with new services;
--               Restart/Deleted and Restart/Clicks: a deleted link, and the clicks, over such runs.
--   Config      internal/config/config.go: get_env, get_env_uint, get_env_float, load_config.
--   Startup     the services that cmd/server/main.go makes of a configuration, with NewURLService,
--               NewClickHouseClient and NewPostgresDB.
--   Tests       concrete servers, and runs of the model on them.
--
-- State and effects. A method is a function from the state to the new state and the result; a mutex
-- of the source makes its method one step. The actions of the URL service are sequenced by `>>=`
-- over a record of the table, the key-value store, the local filter, the node and the position in
-- the clock's readings; `none` is a panic, or fuel that has run out. An error of the source is a
-- value. Process takes requests, goroutines and ticks one at a time, in any order: a goroutine that a
-- handler starts is a task in a list until it runs, and a request that panics is no event. Three parts
-- have a finer grain: UrlService/Interleaved has the commands that any number of requests send to the
-- table and to the cache, Snowflake/Threads the readings of the clock by goroutines that hold the
-- mutex or wait for it, and Worker/Fleet the commands of several workers. A request for statistics
-- reads a table that is fixed in Site, not the worker's.
--
-- Numbers. A uint64 keeps its wrap-around (`% 2 ^ 64`); an int64 is an integer, with its 64-bit pattern
-- where the source shifts or converts it. A time is a number of nanoseconds (milliseconds in
-- Snowflake). float64 is the record Floats of Prelude/Float.antt: nothing is assumed of it but the laws
-- that a theorem takes as an argument, which IEEE 754 arithmetic meets.
--
-- The cache. IsCoherent says that every cached URL is that of the row of its code, deleted or not; that a
-- deleted link is cached no longer is IsGone of UrlService/Gone.
--
-- Fuel. The loop of Base62Encode runs on the number itself, which is enough since each round
-- divides it by 62; its reversal runs on the number of runes. The waiting loop of Generate reads
-- the clock until it moves on; its fuel bounds the number of readings, and
-- shorten_url-total says how much is enough.
--
-- What the program calls and does not contain is a parameter: PostgreSQL with its driver (Postgres, one
-- operation for each SQL statement), Redis with go-redis and RedisBloom (Redis), package math (Floats),
-- the MD5 sum, the text of a time and the wall clock (Env). The laws of PostgreSQL are those of the
-- statements and of migrations/001_postgres_schema.sql, those of Redis allow for eviction at any time.
-- Strings are lists of code points, which are the bytes for the ASCII codes that the program makes.
--
-- More parameters: the commands of a Redis stream (Streams), JSON (Json), the steps of a ClickHouse
-- transaction (ClickHouse), the query of the table of users, SHA-256, the QR encoder, the vectors of
-- Prometheus (Vectors) and Gin, whose matching of paths is written out in Router as its documentation
-- has it. A stream keeps all entries and delivers each to the group at most once. ClickHouse makes
-- an insertion atomic for each partition, which is a month, only: of one that errs any part may be
-- stored. An INSERT of PostgreSQL that errs may have been made, its answer lost. A redirect of Gin
-- for a slash at the end of a path comes before every middleware, so it is an endpoint of its own.
-- What the script of the rate limiter answers is a function of the call, and can be another one at each
-- request. The status of the page and of the metrics is what their handlers make it. In
-- RateLimit/Expiry the deadline of a key is reckoned by the clock of the calls, and a key is dropped
-- as soon as its deadline is reached; the law Whole states what float64 does exactly with whole
-- numbers.
--
-- Not modelled: an end of the process within a request, additions to the Bloom filters that overlap,
-- the record User of models.go, which no operation uses, connection pools, listening, signals and the
-- shutdown (cmd/server/main.go, internal/storage/postgres/db.go), Gin's recovery from a panic, which
-- are calls of libraries; the Python engine, the web page and the deployment files, which are apart
-- from the Go service.
pub mod Prelude
pub mod Base62
pub mod Snowflake
pub mod Bloom
pub mod TokenBucket
pub mod RateLimit
pub mod Models
pub mod Storage
pub mod UrlService
pub mod Tests
pub mod Process
pub mod Startup
pub mod Config
pub mod Analytics
pub mod Api
pub mod Worker
