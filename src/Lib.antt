-- ===== src/Lib.antt =====
-- A model of the gateway, a service that answers chat requests through one of several language
-- model providers, and the theorems about it. It covers the state that the service keeps between
-- requests: the response cache, the rate limiter, the cost tracker, the virtual keys, the metrics
-- and the router with its health records; the token counter; the registry of the providers, the
-- requests that they send and the retry loop around them; the configuration and what the service
-- starts with; and the HTTP handlers that join these parts.
--
-- A request is read from its body, admitted by the rate limiter, looked up in the cache, routed to a
-- provider, charged by the cost tracker and stored in the cache; the router hears whether the
-- provider answered. Each part is a singleton behind a mutex in the code, so here it is a state that
-- each operation takes and returns, and an operation is one step.
--
-- TokenCounter: src/utils/token_counter.cpp. `tokenize` is a scan of the bytes (`scan_byte`,
--   `scan_end`); the loop that cuts a word is `flush`, four bytes at a time.
-- Cache: include/cache.h, src/cache.cpp. The list and the index of the code are both kept; an
--   iterator is the identity of a list node, so that a dangling one could be seen. The loop of
--   `put` runs on fuel; every round drops an entry, so that one more round than there are entries
--   is enough. Recent is the abstract cache, a list of responses with deadlines, and Traces relates
--   sequences of calls to it.
-- RateLimiter: include/middleware/rate_limiter.h, src/middleware/rate_limiter.cpp.
-- CostTracker: include/cost_tracker.h, src/cost_tracker.cpp; `record` is `record_request`.
-- Auth: include/middleware/auth.h, src/middleware/auth.cpp.
-- Metrics: include/utils/metrics.h, src/utils/metrics.cpp; the text and the JSON of a snapshot are in
--   Api.Pages.
-- Types: include/types.h, the records.
-- Config: include/config.h, src/config.cpp. Defaults is the built-in configuration, Load is
--   `load_from_file` with a loader for each section, Environment is `apply_env_overrides` with
--   `std::stoi`. A load that throws keeps what it has assigned before.
-- Router: include/router.h, src/router.cpp. The module itself has the state and the reports of
--   health, Strategies and Scores the strategies, and Dispatch `route`. Each strategy is its `route_`
--   function; the loops over the providers are folds.
-- Providers: include/providers/, src/providers/. The registry and the retry loop are in the module
--   itself; Bodies has `build_request_body` and `parse_response` of the four classes, Client has
--   `http_post`, `chat`, `chat_stream` and `health_check`, and Classes has `chat` and `chat_stream`
--   as each class writes them.
-- Chat: src/api/chat_completions.cpp, the handler of a chat completion from the parsed request on.
--   It composes the operations of the other parts; each step of the code is one definition, from
--   `handle` over `admit_request`, `look_up`, `serve` and `call_providers` to `finish`. The fuel is
--   that of `put`. Live takes the calls of the handler for the HTTP requests of the providers; Ledger
--   and Series say what a request, and a series of requests, leaves in the counters and the costs.
-- Api: src/api/. Completions reads the request from the body and makes the responses (`complete`),
--   Legacy is /chat, Admin is src/api/admin.cpp with one constructor for each route, Pages is
--   src/api/health.cpp and the root page; Identifiers draws the ids of requests. A handler that
--   throws gives no response, for which the HTTP server answers 500.
-- Main: src/main.cpp, the configuration that is loaded and the state that the service starts with.
--   Main.Startup has the level of the log and the lines that are logged from the registration of the
--   providers on to the run of the server.
--   Main.Runs has the steps of the service, one for each handler that changes state, and the states
--   that they reach; their fuel is one more than the entries that the cache may hold. Main.Threads
--   has the operations that the handlers of several threads call, in any order: each holds a mutex or
--   is atomic, with two exceptions: `set_strategy` is a single write that is taken as one step, and
--   `Cache::get` of a disabled cache counts its miss without the mutex, which is taken as a write of
--   one more than any number. So an interleaving of handlers is a sequence of operations.
-- Logger: src/middleware/logger.cpp, the lines as values.
-- Json: what the program uses of nlohmann::json.
-- Common: lists, integers, byte strings, maps, sorting, errors and the interface of `double`.
-- Tests: runs of the model, with exact numbers in millionths for `double` and a type of JSON values.
--
-- Parameters of the model: the type of JSON values with the operations of nlohmann::json, of which
-- the record `IsJson` states that members, elements and scalars are read back as they were given; the
-- HTTP client of cpp-httplib, which is a function from a request to an answer; in the handlers, the
-- reply of a provider to each call; the file and the environment that the configuration is read from;
-- `double` and its operations (Common.Floats), of which only the order is ever assumed to have laws,
-- those of IEEE 754 with NaN; `std::hash<std::string>`; the draws of the random generators; and every
-- reading of the clock, which is a natural number of nanoseconds.
-- `std::sort` is an insertion sort, and an unordered map is an association list in its order of
-- iteration. The arithmetic of `int` is exact, where C++ leaves an overflow undefined; the counters
-- of 64 bits, the conversion of an `int` to `size_t` and the counter of round robin wrap as in C++.
-- `std::stoi` is written out, with the range of `int`.
--
-- Not modelled: the text of JSON, which the library parses and prints; where the handlers log a line;
-- the check of the virtual key in the handler of completions, which decides only about a log line;
-- the lines that are logged while the configuration is loaded, one of which quotes an exception of the
-- JSON library; the banner, the signals, the line at the end and the run of the HTTP server in src/main.cpp.
pub mod Common
pub mod Types
pub mod Logger
pub mod Json
pub mod TokenCounter
pub mod Cache
pub mod RateLimiter
pub mod CostTracker
pub mod Auth
pub mod Metrics
pub mod Config
pub mod Router
pub mod Providers
pub mod Chat
pub mod Api
pub mod Main
pub mod Tests
