-- ===== src/Lifecycle/Stop.antt =====
-- What a stop leaves open.
use ai_backend_api.Base.{Bool, true, false, Bool-cases, inl, inr, ◌≡◌, refl, sym, ap, ◌∙◌, subst}
use ai_backend_api.Base.Result.{Result, ok, err}
use ai_backend_api.Errors.{Exc}
use ai_backend_api.Exec.{Exec, continue, ◌>>=◌, ◌>>◌}
use ai_backend_api.Lifecycle.{
  Servers, Process, Clients, no_aclose, close_if, pool_close, redis_close, qdrant_close,
  lifespan_shutdown, shutdown,
}

-- Neither the pool nor a client is open.
abbrev pub IsClosed : {A : Type 0} → Clients A → Type 0
IsClosed p = (p.pool ≡ false) × (p.redis ≡ false) × (p.qdrant ≡ false)

-- A call that always returns.
abbrev pub Returns : {S : Type 0} → Exec S (Unit {0}) → Type 0
Returns {S} call = (s : S) → (call s).0 ≡ ok tt

-- A call that always raises this exception.
abbrev pub Raises : {S : Type 0} → Exc → Exec S (Unit {0}) → Type 0
Raises {S} e call = (s : S) → (call s).0 ≡ err e

then_lem :
    {S : Type 0} (first rest : Exec S (Unit {0})) (r : Result Exc (Unit {0})) (s s' : S)
    → first s ≡ (r, s')
    → (first >> rest) s ≡ continue r (λ _. rest) s'
unfolding ◌>>=◌
then_lem first rest r s s' h = ap (λ x. continue x.0 (λ _. rest) x.1) h

module _ (servers : Servers) where
  close_if-open :
      (call : Exec servers.State (Unit {0})) (forget : Process servers → Process servers) (b : Bool)
      (p : Process servers) (r : Result Exc (Unit {0}))
      → b ≡ true
      → (call p.servers).0 ≡ r
      → close_if servers b call forget p
        ≡ continue r (λ _ q. (ok tt, forget q)) (record p { servers = (call p.servers).1 })
  unfolding close_if ◌>>=◌
  close_if-open call forget b p r on h =
      ap (λ x. close_if servers x call forget p) on
      ∙ ap (λ x. continue x (λ _ q. (ok tt, forget q)) (record p { servers = (call p.servers).1 }))
          h

  close_if-shut :
      (call : Exec servers.State (Unit {0})) (forget : Process servers → Process servers) (b : Bool)
      (p : Process servers)
      → b ≡ false
      → close_if servers b call forget p ≡ (ok tt, p)
  unfolding close_if
  close_if-shut call forget b p off = ap (λ x. close_if servers x call forget p) off

  pool_close_lem :
      (p : Process servers)
      → Returns servers.close_pool
      → (q : Process servers) × (pool_close servers p ≡ (ok tt, q))
        × (q.pool ≡ false)
        × (q.redis ≡ p.redis)
        × (q.qdrant ≡ p.qdrant)
  unfolding pool_close
  pool_close_lem p h = elim (Bool-cases p.pool) [
    | inl on ↦
        (_, close_if-open servers.close_pool _ p.pool p (ok tt) on (h p.servers), refl, refl, refl)
    | inr off ↦ (p, close_if-shut servers.close_pool _ p.pool p off, off, refl, refl)
  ]

  redis_close_lem :
      (p : Process servers)
      → Returns servers.close_redis
      → (q : Process servers) × (redis_close servers p ≡ (ok tt, q))
        × (q.redis ≡ false)
        × (q.pool ≡ p.pool)
        × (q.qdrant ≡ p.qdrant)
  unfolding redis_close
  redis_close_lem p h = elim (Bool-cases p.redis) [
    | inl on ↦ (
      _,
      close_if-open servers.close_redis _ p.redis p (ok tt) on (h p.servers),
      refl,
      refl,
      refl,
    )
    | inr off ↦ (p, close_if-shut servers.close_redis _ p.redis p off, off, refl, refl)
  ]

  qdrant_close_lem :
      (p : Process servers)
      → Returns servers.close_qdrant
      → (q : Process servers) × (qdrant_close servers p ≡ (ok tt, q))
        × (q.qdrant ≡ false)
        × (q.pool ≡ p.pool)
        × (q.redis ≡ p.redis)
  unfolding qdrant_close
  qdrant_close_lem p h = elim (Bool-cases p.qdrant) [
    | inl on ↦ (
      _,
      close_if-open servers.close_qdrant _ p.qdrant p (ok tt) on (h p.servers),
      refl,
      refl,
      refl,
    )
    | inr off ↦ (p, close_if-shut servers.close_qdrant _ p.qdrant p off, off, refl, refl)
  ]

  -- Where the servers accept that their connections are closed, both ways to stop close the pool and
  -- both clients, whichever were open. The worker's hook then returns; the lifespan of the
  -- application always ends with an exception, from the task queue's pool that it does not await.
  pub shutdown-IsClosed :
      (p : Process servers)
      → Returns servers.close_pool
      → Returns servers.close_redis
      → Returns servers.close_qdrant
      → IsClosed (lifespan_shutdown servers p).1
        × (e : Exc) × ((lifespan_shutdown servers p).0 ≡ err e)
        × (q : Process servers) × (shutdown servers (true, p) ≡ (ok tt, (true, q)))
        × IsClosed q
  unfolding lifespan_shutdown shutdown ◌>>=◌
  shutdown-IsClosed p h1 h2 h3 =
      let (q1, pool_done, no_pool, redis1, qdrant1) = pool_close_lem p h1 in
      let (q2, redis_done, no_redis, pool2, qdrant2) = redis_close_lem q1 h2 in
      let (q3, qdrant_done, no_qdrant, pool3, redis3) = qdrant_close_lem q2 h3 in
      let closed : IsClosed q3 = (pool3 ∙ (pool2 ∙ no_pool), redis3 ∙ no_redis, no_qdrant) in
      let stopped : lifespan_shutdown servers p ≡ (err no_aclose, q3) =
        then_lem (pool_close servers) _ (ok tt) p q1 pool_done
        ∙ (then_lem (redis_close servers) _ (ok tt) q1 q2 redis_done
            ∙ then_lem (qdrant_close servers) _ (ok tt) q2 q3 qdrant_done) in
      let worker : (pool_close servers >> (redis_close servers >> qdrant_close servers)) p
          ≡ (ok tt, q3) =
        then_lem (pool_close servers) _ (ok tt) p q1 pool_done
        ∙ (then_lem (redis_close servers) _ (ok tt) q1 q2 redis_done ∙ qdrant_done) in
      (
        subst IsClosed (sym (ap (λ x. x.1) stopped)) closed,
        no_aclose,
        ap (λ x. x.0) stopped,
        q3,
        ap (λ x. (x.0, (true, x.1))) worker,
        closed,
      )

  -- But where Redis refuses, with a client for it open, neither way gets to Qdrant: its client is
  -- left as it was, the one of Redis stays, and the exception is what the stop ends with.
  pub shutdown-stops :
      (p : Process servers) (e : Exc)
      → Returns servers.close_pool
      → Raises e servers.close_redis
      → p.redis ≡ true
      → (q : Process servers) × (lifespan_shutdown servers p ≡ (err e, q))
        × (shutdown servers (true, p) ≡ (err e, (true, q)))
        × (q.pool ≡ false)
        × (q.redis ≡ true)
        × (q.qdrant ≡ p.qdrant)
  unfolding lifespan_shutdown shutdown redis_close ◌>>=◌
  shutdown-stops p e h1 h2 on =
      let (q1, pool_done, no_pool, redis1, qdrant1) = pool_close_lem p h1 in
      let refused =
        close_if-open servers.close_redis (λ q. record q { redis = false }) q1.redis q1 (err e)
          (redis1 ∙ on) (h2 q1.servers) in
      let q2 : Process servers = record q1 { servers = (servers.close_redis q1.servers).1 } in
      (
        q2,
        then_lem (pool_close servers) _ (ok tt) p q1 pool_done
            ∙ then_lem (redis_close servers) _ (err e) q1 q2 refused,
        ap (λ x. (x.0, (true, x.1)))
            (then_lem (pool_close servers) (redis_close servers >> qdrant_close servers) (ok tt) p
                q1 pool_done
              ∙ then_lem (redis_close servers) (qdrant_close servers) (err e) q1 q2 refused),
        no_pool,
        redis1 ∙ on,
        qdrant1,
      )
