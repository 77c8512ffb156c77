-- ===== src/Lib.antt =====
-- PulseGate, an HTTP gateway: models of its core and their theorems.
--
-- A connection reads bytes into a byte buffer; the request parser takes lines and the body from that
-- buffer and builds a request with its header list; a response is serialised with the same header list.
-- The router asks a rate limiter and a response cache before it calls a handler. Around the proxy stand
-- a pool of connections, a circuit breaker for each upstream, and a store of the health of the
-- endpoints. Each part is a module, and its children hold the proofs:
--   Buffer    include/pulsegate/net/buffer.h, src/net/buffer.cpp: `Buffer` with its storage and the
--             three indices; `prepare`, `commit`, `consume`, `clear`, `append`, `findCrlf`,
--             `takeString` and `compactOrGrow` under their names in this spelling.
--   Headers   include/pulsegate/http/headers.h, src/http/headers.cpp: the entries as a list.
--   Request   include/pulsegate/http/http_request.h, src/http/http_request.cpp.
--   Response  include/pulsegate/http/http_response.h, src/http/http_response.cpp: `serialize`.
--   Parser    include/pulsegate/http/http_parser.h, src/http/http_parser.cpp: `parse` with one
--             definition for each part of a round of its loop, over a `Buffer`.
--   ResponseParser  include/pulsegate/http/http_response_parser.h, src/http/http_response_parser.cpp;
--             its Rounds holds the loop. A read outside the bytes is an `err undefined_behaviour`.
--   Breaker   include/pulsegate/http/circuit_breaker.h, src/http/circuit_breaker.cpp.
--   Health    include/pulsegate/http/upstream_health.h, src/http/upstream_health.cpp.
--   Router    include/pulsegate/http/router.h, src/http/router.cpp: `add`, `match` and the answers where no
--             route matches; Router.Handle is the part of `handle` before the call of the handler, with
--             the limiters and the caches, and Router.Finish the part after it.
--   RateLimiter  include/pulsegate/http/rate_limiter.h, src/http/rate_limiter.cpp: the token bucket over an
--             interface for `double`; RateLimiter.Clients the limiter with its shards.
--   Files     include/pulsegate/http/file_service.h, src/http/file_service.cpp: the parts that touch no file.
--   Proxy     include/pulsegate/http/reverse_proxy.h, src/http/reverse_proxy.cpp: the messages;
--             Proxy.Choice the choice of an upstream and what the end of a transaction records.
--   Config    include/pulsegate/http/config.h, src/http/config.cpp: the data; Config.Endpoint, Config.Validate
--             and Config.Changes hold the functions, Config.Reload the two tasks of the manager.
--   Pool      include/pulsegate/http/upstream_pool.h, src/http/upstream_pool.cpp: the policy; Pool.Strand
--             the tasks of the pool as steps, Pool.Lease the object of a lease, and Pool.Semaphore the
--             semaphore that describes the pool.
--   Cache     include/pulsegate/http/response_cache.h, src/http/response_cache.cpp: a shard with `get`
--             and `put`; Cache.Policy holds what may be cached, Cache.Key the key, Cache.Build the
--             constructor and the whole cache, with `std::hash` as a parameter.
--   Sessions  include/pulsegate/http/session_lifecycle.h and the registry of src/http/http_server.cpp.
--   Base      shared types, tests, lists, byte strings, numbers and their texts.
--
-- A method that changes an object takes its state and returns the state that it leaves. A C++ exception
-- is an `err` beside the state at the throw. A `char` is its unsigned value, and a `std::string` a list
-- of bytes. `std::size_t` has 64 bits: additions wrap at 2 ^ 64 (add64, sub64, mul64), and 32-bit
-- counters at 2 ^ 32. A method that holds the mutex of its object throughout is one step. The value of
-- a clock is an argument. Allocation does not fail.
--
-- Fuel: `append_loop` has one unit for each byte that it is given, and each round writes one at least;
-- `parse_loop` has one more than the readable bytes, and each round that goes on takes two at least;
-- the search for an upstream has one for each upstream, as the loop has rounds;
-- the loop of the pool's `stop` has one for each waiter, and each round removes one;
-- the loops over a text have one unit for each byte, and each round takes one at least.
--
-- Not modelled: sockets, timers, threads and coroutines, the file system, logs, the start of the
-- programs. The walk over a YAML document and the sockets of the upstream pool and of the proxy have no
-- model, and of the observability only the events that `handle` reports have one.
mod Base
pub mod Breaker
pub mod Buffer
pub mod Cache
pub mod Config
pub mod Files
pub mod Headers
pub mod Health
pub mod Parser
pub mod Pool
pub mod Proxy
pub mod RateLimiter
pub mod Request
pub mod Response
pub mod ResponseParser
pub mod Router
pub mod Sessions
