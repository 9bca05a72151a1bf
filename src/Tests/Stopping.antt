-- ===== src/Tests/Stopping.antt =====
-- An example of a stop: servers that count the calls.
use ai_backend_api.Base.{ℕ, suc, true, false, ◌≡◌, refl}
use ai_backend_api.Base.Result.{ok, err}
use ai_backend_api.Errors.{Exc}
use ai_backend_api.Exec.{◌>>=◌}
use ai_backend_api.Lifecycle.{
  Servers, Process, connect, ensure, lifespan_startup, lifespan_shutdown, shutdown,
}
use ai_backend_api.Lifecycle.Stop.{IsClosed, shutdown-IsClosed}
use ai_backend_api.Tests.Configuration.{defaults}

abbrev counting : Servers
counting = record {
  State = ℕ;
  create_pool = λ dsn min_size max_size n. (ok tt, suc n);
  close_pool = λ n. (ok tt, suc n);
  close_redis = λ n. (ok tt, suc n);
  close_qdrant = λ n. (ok tt, suc n);
  ensure_collection = λ name vector_size n. (ok tt, suc n);
}

-- Redis was not used.
abbrev running : Process counting
running = record { servers = 2; pool = true; redis = false; qdrant = true }

shutdown-IsClosed_example :
    IsClosed (lifespan_shutdown counting running).1
    × (e : Exc) × ((lifespan_shutdown counting running).0 ≡ err e)
    × (q : Process counting) × (shutdown counting (true, running) ≡ (ok tt, (true, q)))
    × IsClosed q
shutdown-IsClosed_example = shutdown-IsClosed counting running (λ s. refl) (λ s. refl) (λ s. refl)

abbrev before : Process counting
before = record { servers = 0; pool = false; redis = false; qdrant = false }

abbrev started : Process counting
started = record { servers = 2; pool = true; redis = false; qdrant = true }

startup_lem : lifespan_startup counting defaults before ≡ (ok tt, started)
unfolding lifespan_startup connect ensure ◌>>=◌
startup_lem = refl
