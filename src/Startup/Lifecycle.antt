-- ===== src/Startup/Lifecycle.antt =====
-- What a process leaves open.
use awa_platform.Prelude.{ℕ, suc, ◌+◌, ◌≤◌, ◌≡◌, ◌↔◌, refl, sym, ap, ◌∙◌, List, [], ◌∷◌, arith}
use awa_platform.Prelude.Lists.{All, length}
use awa_platform.Exceptions.{Result, ok, raise}
use awa_platform.Startup.{
  Process, Outcomes, close, init_engine, init_redis, init_kafka_producer, stop_producer,
  dispose_kafka_producer, close_client, close_pool, dispose_redis, dispose_found, dispose_engine,
  ◌>>◌, await, start_all, dispose_all, lifespan, finish_worker, run_worker_process,
}

abbrev pub Succeeds : {A : Type 0} → Result A → Type 0
Succeeds (ok a) = Unit
Succeeds (raise e) = ⊥

-- Handles are numbered upwards, so none of those that are open is still to come.
abbrev pub IsNumbered : Process → Type 0
IsNumbered p = All (λ h. suc h ≤ p.next) p.opened

abbrev pub AllSucceed : Outcomes → Type 0
AllSucceed o =
    Succeeds o.start
    × Succeeds o.stop
    × Succeeds o.aclose
    × Succeeds o.disconnect
    × Succeeds o.dispose

close_absent : (h : ℕ) (xs : List ℕ) → All (λ k. suc k ≤ h) xs → close h xs ≡ xs
close_absent h [] k = refl
close_absent h (x ∷ xs) (k, ks) = ground (arith, close_absent h xs ks)

-- The handle that was made last is closed.
close_top : (h : ℕ) (xs : List ℕ) → All (λ k. suc k ≤ h) xs → close h (h ∷ xs) ≡ xs
close_top h xs k = ground (arith, close_absent h xs k)

later : (h j : ℕ) (xs : List ℕ) → h ≤ j → All (λ k. suc k ≤ h) xs → All (λ k. suc k ≤ j) xs
later h j [] e k = tt
later h j (x ∷ xs) e (k, ks) = (omega arith, later h j xs e ks)

-- Whether a list has grown.
longer : {A : Type 0} (xs ys : List A) → suc (length ys) ≤ length xs → xs ≡ ys → ⊥
longer xs ys h e = let same : length xs ≡ length ys = ap length e in absurd (omega arith)

-- The four handles of a process, on top of those that were open before.
module _ (n : ℕ) (before : List ℕ) (h : All (λ k. suc k ≤ n) before) where
  producer_closed :
      close (n + 1 + 2) ((n + 1 + 2) ∷ (n + 1 + 1) ∷ (n + 1) ∷ n ∷ before)
      ≡ (n + 1 + 1) ∷ (n + 1) ∷ n ∷ before
  producer_closed =
      close_top (n + 1 + 2) ((n + 1 + 1) ∷ (n + 1) ∷ n ∷ before)
        (omega arith, (omega arith, (omega arith, later n (n + 1 + 2) before (omega arith) h)))

  client_closed : close (n + 1 + 1) ((n + 1 + 1) ∷ (n + 1) ∷ n ∷ before) ≡ (n + 1) ∷ n ∷ before
  client_closed =
      close_top (n + 1 + 1) ((n + 1) ∷ n ∷ before)
        (omega arith, (omega arith, later n (n + 1 + 1) before (omega arith) h))

  pool_closed : close (n + 1) ((n + 1) ∷ n ∷ before) ≡ n ∷ before
  pool_closed = close_top (n + 1) (n ∷ before) (omega arith, later n (n + 1) before (omega arith) h)

  engine_closed : close n (n ∷ before) ≡ before
  engine_closed = close_top n before h

  two_closed :
      close (n + 1 + 1) (close (n + 1 + 2) ((n + 1 + 2) ∷ (n + 1 + 1) ∷ (n + 1) ∷ n ∷ before))
      ≡ (n + 1) ∷ n ∷ before
  two_closed = ap (close (n + 1 + 1)) producer_closed ∙ client_closed

  three_closed :
      close
        (n + 1)
        (close (n + 1 + 1) (close (n + 1 + 2) ((n + 1 + 2) ∷ (n + 1 + 1) ∷ (n + 1) ∷ n ∷ before)))
      ≡ n ∷ before
  three_closed = ap (close (n + 1)) two_closed ∙ pool_closed

abbrev outcomes : (start stop aclose disconnect dispose : Result (Unit {0})) → Outcomes
outcomes start stop aclose disconnect dispose = record {
  start = start;
  stop = stop;
  aclose = aclose;
  disconnect = disconnect;
  dispose = dispose;
}

-- The exception of the loop comes back after the state is settled.
raised_again :
    (loop : Result (Unit {0})) (q : Process) (r : Result (Unit {0}) × Process)
    → (((λ x. r) >> await loop) q).1 ≡ r.1
raised_again loop q (ok u, s) = refl
raised_again loop q (raise e, s) = refl

-- The `finally` of the worker closes as much as a service that ends as the consumer stops.
finished :
    (o : Outcomes) (stopped loop : Result (Unit {0})) (q : Process) (r : Result ℕ × Process)
    → (((λ x. r) >> finish_worker o stopped loop) q).1
      ≡ (((λ x. r) >> await stopped >> dispose_all o) q).1
unfolding finish_worker
finished o stopped loop q (raise e, s) = refl
finished o (raise e) loop q (ok a, s) = refl
finished o (ok u) loop q (ok a, s) = raised_again loop s (dispose_all o s)

module _ (p : Process) (h : IsNumbered p) where
  abbrev Releases : Outcomes → Result (Unit {0}) → Type 0
  Releases o served = ((lifespan o served p).1.opened ≡ p.opened) ↔ (AllSucceed o × Succeeds served)

  releases :
      (start stop aclose disconnect dispose served : Result (Unit {0}))
      → Releases (outcomes start stop aclose disconnect dispose) served
  unfolding lifespan start_all init_engine init_redis init_kafka_producer dispose_all
      dispose_kafka_producer stop_producer dispose_redis close_client close_pool dispose_engine
      dispose_found
  releases (raise e) b c d f g = (λ k. absurd (longer _ _ (omega arith) k), λ k. absurd k.0.0)
  releases (ok u) b c d f (raise e) = (λ k. absurd (longer _ _ (omega arith) k), λ k. absurd k.1)
  releases (ok u) (raise e) c d f (ok w) =
      (λ k. absurd (longer _ _ (omega arith) k), λ k. absurd k.0.1)
  releases (ok u) (ok v) (raise e) d f (ok w) = (
    λ k. absurd (longer _ _ (omega arith) (sym (producer_closed p.next p.opened h) ∙ k)),
    λ k. absurd k.0.2,
  )
  releases (ok u) (ok v) (ok x) (raise e) f (ok w) = (
    λ k. absurd (longer _ _ (omega arith) (sym (two_closed p.next p.opened h) ∙ k)),
    λ k. absurd k.0.3,
  )
  releases (ok u) (ok v) (ok x) (ok y) (raise e) (ok w) = (
    λ k. absurd (longer _ _ (omega arith) (sym (three_closed p.next p.opened h) ∙ k)),
    λ k. absurd k.0.4,
  )
  releases (ok u) (ok v) (ok x) (ok y) (ok z) (ok w) = (
    λ k. ((tt, tt, tt, tt, tt), tt),
    λ k. ap (close p.next) (three_closed p.next p.opened h) ∙ engine_closed p.next p.opened h,
  )

  -- The service leaves open what was open before it, exactly if the producer starts, the application
  -- ends without an exception, and each of the four disposals Succeeds.
  pub lifespan-releases_iff :
      (o : Outcomes) (served : Result (Unit {0}))
      → ((lifespan o served p).1.opened ≡ p.opened) ↔ (AllSucceed o × Succeeds served)
  lifespan-releases_iff o served = releases o.start o.stop o.aclose o.disconnect o.dispose served

  -- The worker leaves open what was open before it, exactly if the producer starts, the consumer
  -- stops without an exception, and each of the four disposals Succeeds, however its loop ends.
  pub run_worker_process-releases_iff :
      (o : Outcomes) (stopped loop : Result (Unit {0}))
      → ((run_worker_process o stopped loop p).1.opened ≡ p.opened)
        ↔ (AllSucceed o × Succeeds stopped)
  unfolding run_worker_process lifespan
  run_worker_process-releases_iff o stopped loop =
      rw (finished o stopped loop p (start_all o p)) (lifespan-releases_iff o stopped)
