-- ===== src/Lib.antt =====
-- A model of the AI backend API: multi-tenant ingestion of documents, vector search and
-- retrieval-augmented chat.
--
-- The parts of the program and how they interact. A client's request passes the request
-- logging (app/api/middleware/request_logging.py), the rate limiter (app/api/middleware/rate_limit.py
-- over app/infrastructure/cache/rate_limiter.py) and the API key check
-- (app/core/security/api_key.py), and a router calls a use case. Ingestion saves a document
-- and queues a task; a worker's task runs the pipeline, which splits the document into chunks, embeds
-- them in batches and stores their vectors, while an ingestion job tracks the stages. Search
-- embeds a query and asks the vector store; chat builds a context and a prompt from the
-- results and asks the language model, at once or as a stream. Exceptions become answers in
-- app/api/middleware/error_handler.py.
--
-- The modules.
--   Base: texts as lists of code points, integers, dictionaries, results, sorting.
--   Exec: methods that change a state and may raise; Exec.Returns: what holds when they return.
--   Call: how Python binds the arguments of a call.
--   Entity: app/domain/entities and app/domain/value_objects; one module per class, methods by
--     their names, `self` as the last argument and the changed object as the result.
--   Errors: app/domain/exceptions and app/api/middleware/error_handler.py.
--   Chunking: app/domain/services/chunking_service.py (Simple) and token_aware_chunking.py (Token).
--   UseCase: app/application/use_cases (Ingest, Process, Search, Chat) and the task of
--     app/infrastructure/queue/arq_worker.py (Task). `execute` is the method of that name; Search.Wired
--     is the search over the vector store, Chat.Memory the chat over its history.
--   Service: app/application/services (Context, Prompt).
--   Vector: app/infrastructure/vector_db/qdrant_adapter.py.
--   RateLimit: app/infrastructure/cache/rate_limiter.py, the Lua script included.
--   Repository: app/infrastructure/repositories: documents and chunks in memory, documents in
--     PostgreSQL (with app/infrastructure/db/postgres_pool.py), the tenants in PostgreSQL with their
--     cached lookups, the chat history in Redis.
--   Api: the middleware (Limit, and Logging with app/core/logging/context.py), the API key (Auth), the
--     health check and the routes of app/api/routers, with what all of them refuse
--     (Guard) and the order of the middleware (Stack).
--   Provider: app/infrastructure/llm (Embedding, with Cached where Redis stands behind it; Chat).
--   Cache: app/infrastructure/cache/redis_cache.py.
--   Worker: app/infrastructure/queue/worker.py.
--   Tokens: app/infrastructure/token/tiktoken_service.py.
--   Settings: app/core/config/settings.py.
--   Lifecycle: the lifespan of app/main.py and the hooks of arq_worker.py, with the closing of clients.
--   Container: the settings that the parts get in app/container.py.
--   Tests: concrete inputs.
--
-- Conventions. Readings of the clock, `uuid4()` and random numbers are arguments. Repositories,
-- providers, Redis, Qdrant and tiktoken are parameters, records of operations, with what is assumed of
-- them as named hypotheses. A method that may raise returns a result and a state, which keeps what was
-- written before the exception. Numbers are natural numbers, and positions of the character
-- chunking are integers; scores are fractions of a million.
-- A `CancelledError`, which `except Exception` does not catch, is an exception of its own where such a
-- clause decides what follows: in the pipeline, in the task, and as an end of a coroutine in Worker;
-- in the other modules cancellations are left out. A call of a parameter ends: it returns or
-- raises.
--
-- Fuel. The loop of Chunking.Token runs on one round more than there are tokens, which is
-- always enough. The loop of Chunking.Simple takes its fuel as an argument: on some documents no
-- fuel is enough. The embedding loop makes as many rounds as the range of the source has elements.
--
-- Not modelled: a token counter that raises (on a special token) in the chat and its context, where it
-- is a function, though in the pipeline and the search it may raise; the log lines of the routes and
-- use cases, the configuration of structlog, and the rest of the dependency injection.
pub mod Api
pub mod Base
pub mod Cache
pub mod Call
pub mod Chunking
pub mod Container
pub mod Entity
pub mod Errors
pub mod Exec
pub mod Lifecycle
pub mod Provider
pub mod RateLimit
pub mod Repository
pub mod Service
pub mod Settings
pub mod Tests
pub mod Tokens
pub mod UseCase
pub mod Vector
pub mod Worker
