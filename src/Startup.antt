-- ===== src/Startup.antt =====
-- core/database.py, core/redis.py, core/kafka.py, main.py and workers/auction_worker.py: the engine,
-- the Redis client and the Kafka producer of a process, from start-up to shutdown.
pub mod Lifecycle
pub mod Health
pub mod Config
mod Tests
use awa_platform.Prelude.{ℕ, ◌+◌, Bool, Option, none, some, List, [], ◌∷◌, not, ◌==◌}
use awa_platform.Prelude.Lists.{select}
use awa_platform.Exceptions.{Exception, Result, ok, raise, runtime_error}

-- The module globals, and which connections outside the process are open. A handle is the number of
-- the object that was made; `next` is that of the next one.
pub record Process : Type 0 where
  pub engine : Option ℕ
  pub session_factory : Option ℕ
  pub pool : Option ℕ
  pub client : Option ℕ
  pub producer : Option ℕ
  pub opened : List ℕ
  pub next : ℕ

-- How the calls of the libraries end: `start` is the end of `_start_producer_with_retry`, after its
-- last attempt.
pub record Outcomes : Type 0 where
  pub start : Result (Unit {0})
  pub stop : Result (Unit {0})
  pub aclose : Result (Unit {0})
  pub disconnect : Result (Unit {0})
  pub dispose : Result (Unit {0})

abbrev pub Step : Type 0 → Type 0
Step A = Process → Result A × Process

infixl 5 ◌>>=◌ ◌>>◌
abbrev pub ◌>>=◌ : {A B : Type 0} → Step A → (A → Step B) → Step B
◌>>=◌ m f p = let (r, p') = m p in elim r [ ok a ↦ f a p' | raise e ↦ (raise e, p') ]

abbrev pub ◌>>◌ : {A B : Type 0} → Step A → Step B → Step B
m >> k = m >>= λ _. k

-- A call of a library that leaves the globals alone.
abbrev pub await : {A : Type 0} → Result A → Step A
await r p = (r, p)

abbrev pub close : ℕ → List ℕ → List ℕ
close handle handles = select (λ h. not (h == handle)) handles

unfoldable pub init_engine : Step ℕ
init_engine p = (
  ok p.next,
  record p {
    engine = some p.next;
    session_factory = some p.next;
    opened = p.next ∷ p.opened;
    next = p.next + 1;
  },
)

unfoldable pub init_redis : Step ℕ
init_redis p = (
  ok (p.next + 1),
  record p {
    pool = some p.next;
    client = some (p.next + 1);
    opened = (p.next + 1) ∷ p.next ∷ p.opened;
    next = p.next + 2;
  },
)

-- The global is set before the producer is started; it is open once it has been.
unfoldable pub init_kafka_producer : Outcomes → Step ℕ
init_kafka_producer o p =
    let made = record p { producer = some p.next; next = p.next + 1 } in
    elim o.start [
      | ok u ↦ (ok p.next, record made { opened = p.next ∷ p.opened })
      | raise e ↦ (raise e, made)
    ]

-- `await _producer.stop()`, then the global is reset.
unfoldable pub stop_producer : Outcomes → Option ℕ → Step Unit
stop_producer o none p = (ok tt, p)
stop_producer o (some h) p = elim o.stop [
  | ok u ↦ (ok tt, record p { producer = none; opened = close h p.opened })
  | raise e ↦ (raise e, p)
]

unfoldable pub dispose_kafka_producer : Outcomes → Step Unit
dispose_kafka_producer o p = stop_producer o p.producer p

unfoldable pub close_client : Outcomes → Option ℕ → Step Unit
close_client o none p = (ok tt, p)
close_client o (some h) p = elim o.aclose [
  | ok u ↦ (ok tt, record p { client = none; opened = close h p.opened })
  | raise e ↦ (raise e, p)
]

unfoldable pub close_pool : Outcomes → Option ℕ → Step Unit
close_pool o none p = (ok tt, p)
close_pool o (some h) p = elim o.disconnect [
  | ok u ↦ (ok tt, record p { pool = none; opened = close h p.opened })
  | raise e ↦ (raise e, p)
]

unfoldable pub dispose_redis : Outcomes → Step Unit
dispose_redis o = (λ p. close_client o p.client p) >> (λ p. close_pool o p.pool p)

-- The session factory stays.
unfoldable pub dispose_found : Outcomes → Option ℕ → Step Unit
dispose_found o none p = (ok tt, p)
dispose_found o (some h) p = elim o.dispose [
  | ok u ↦ (ok tt, record p { engine = none; opened = close h p.opened })
  | raise e ↦ (raise e, p)
]

unfoldable pub dispose_engine : Outcomes → Step Unit
dispose_engine o p = dispose_found o p.engine p

-- The three getters raise RuntimeError before the initialisation.
abbrev pub or_not_initialized : Option ℕ → Result ℕ
or_not_initialized none = raise runtime_error
or_not_initialized (some h) = ok h

unfoldable pub get_kafka_producer : Process → Result ℕ
get_kafka_producer p = or_not_initialized p.producer

unfoldable pub get_redis : Process → Result ℕ
get_redis p = or_not_initialized p.client

unfoldable pub get_session_factory : Process → Result ℕ
get_session_factory p = or_not_initialized p.session_factory

-- What both the service and the worker do first and last.
unfoldable pub start_all : Outcomes → Step ℕ
start_all o = init_engine >> init_redis >> init_kafka_producer o

unfoldable pub dispose_all : Outcomes → Step Unit
dispose_all o = dispose_kafka_producer o >> dispose_redis o >> dispose_engine o

-- `lifespan`: an exception at the `yield` skips the rest.
unfoldable pub lifespan : Outcomes → (served : Result (Unit {0})) → Step Unit
lifespan o served = start_all o >> await served >> dispose_all o

-- The `finally` of `run_worker`, and the exception of the loop after it.
unfoldable pub finish_worker :
    Outcomes → (stopped : Result (Unit {0})) → (loop : Result (Unit {0})) → Step Unit
finish_worker o stopped loop = await stopped >> dispose_all o >> await loop

-- `run_worker` around its loop; `stopped` is the end of `consumer.stop()`.
unfoldable pub run_worker_process :
    Outcomes → (stopped : Result (Unit {0})) → (loop : Result (Unit {0})) → Step Unit
run_worker_process o stopped loop = start_all o >> finish_worker o stopped loop
