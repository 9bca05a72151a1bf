-- ===== src/Lifecycle.antt =====
-- Starting and stopping: the lifespan of app/main.py, the hooks of
-- app/infrastructure/queue/arq_worker.py, and the clients that they open and close. What the
-- servers answer is a parameter. `container.arq_pool()` calls an async function without awaiting it:
-- what it returns is a coroutine object, which has no `aclose`.
pub mod Stop
use ai_backend_api.Base.{ℕ, Bool, true, false, if◌then◌else◌}
use ai_backend_api.Base.Text.{Text, codes}
use ai_backend_api.Base.Result.{Result, ok, err}
use ai_backend_api.Errors.{Exc}
use ai_backend_api.Exec.{Exec, pure, raise, continue, ◌>>=◌, ◌>>◌}
use ai_backend_api.Settings.{Settings, DatabaseGroup, database_url}

-- The servers.
pub record Servers : Type 1 where
  pub State : Type 0
  pub create_pool : Text → ℕ → ℕ → Exec State (Unit {0})
  pub close_pool : Exec State (Unit {0})
  pub close_redis : Exec State (Unit {0})
  pub close_qdrant : Exec State (Unit {0})
  pub ensure_collection : Text → ℕ → Exec State (Unit {0})

-- What the singletons of the container hold: the pool, and the clients that are made when first
-- used.
pub record Clients (A : Type 0) : Type 0 where
  pub servers : A
  pub pool : Bool
  pub redis : Bool
  pub qdrant : Bool

abbrev pub no_aclose : Exc
no_aclose = Exc.other_error (codes "'coroutine' object has no attribute 'aclose'")

module _ (servers : Servers) where
  abbrev pub Process : Type 0
  Process = Clients servers.State

  abbrev pub at_servers : {A : Type 0} → Exec servers.State A → Exec Process A
  at_servers call p = let (r, s) = call p.servers in (r, record p { servers = s })

  -- `PostgresPool.connect`: `_pool` is set once the pool is there.
  unfoldable pub connect : DatabaseGroup → Exec Process (Unit {0})
  unfolding database_url
  connect settings =
      at_servers
        (servers.create_pool (database_url settings) settings.pool_min_size settings.pool_max_size)
      >>= λ _ p. (ok tt, record p { pool = true })

  -- A client that is there is closed, and then it is forgotten.
  unfoldable pub close_if :
      Bool → Exec servers.State (Unit {0}) → (Process → Process) → Exec Process (Unit {0})
  close_if is_open close forget p =
      if is_open then (at_servers close >>= λ _ q. (ok tt, forget q)) p else (ok tt, p)

  -- `PostgresPool.close`
  unfoldable pub pool_close : Exec Process (Unit {0})
  unfolding close_if
  pool_close p = close_if p.pool servers.close_pool (λ q. record q { pool = false }) p

  -- `RedisCache.close`
  unfoldable pub redis_close : Exec Process (Unit {0})
  unfolding close_if
  redis_close p = close_if p.redis servers.close_redis (λ q. record q { redis = false }) p

  -- `QdrantVectorRepository.close`
  unfoldable pub qdrant_close : Exec Process (Unit {0})
  unfolding close_if
  qdrant_close p = close_if p.qdrant servers.close_qdrant (λ q. record q { qdrant = false }) p

  -- The first call of Qdrant makes its client.
  unfoldable pub ensure : Text → ℕ → Exec Process (Unit {0})
  ensure name vector_size p =
      at_servers (servers.ensure_collection name vector_size) (record p { qdrant = true })

  -- `lifespan` up to the `yield`.
  unfoldable pub lifespan_startup : Settings → Exec Process (Unit {0})
  unfolding connect ensure
  lifespan_startup settings =
      connect settings.database
      >> ensure settings.qdrant.collection_name settings.openai.embedding_dimensions

  -- `lifespan` after the `yield`.
  unfoldable pub lifespan_shutdown : Exec Process (Unit {0})
  unfolding pool_close redis_close qdrant_close
  lifespan_shutdown = pool_close >> (redis_close >> (qdrant_close >> raise no_aclose))

  -- The hooks of the worker, of whose context the container is all that counts: whether it is there.
  unfoldable pub startup : Settings → Exec (Bool × Process) (Unit {0})
  unfolding connect
  startup settings (has_container, p) =
      let (r, q) = connect settings.database p in
      elim r [ ok _ ↦ (ok tt, (true, q)) | err e ↦ (err e, (has_container, q)) ]

  unfoldable pub shutdown : Exec (Bool × Process) (Unit {0})
  unfolding pool_close redis_close qdrant_close
  shutdown (has_container, p) =
      if has_container
      then (let (r, q) = (pool_close >> (redis_close >> qdrant_close)) p in (r, (has_container, q)))
      else (ok tt, (has_container, p))
