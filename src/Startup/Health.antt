-- ===== src/Startup/Health.antt =====
-- api/v1/health.py, with check_db_health of core/database.py and check_redis_health of core/redis.py.
use awa_platform.Prelude.{
  ℕ, String, ◌≡◌, ◌↔◌, refl, ap, Bool, true, false, ◌&&◌, Option, none, some, if◌then◌else◌, arith,
  is_some,
}
use awa_platform.Exceptions.{Result, ok, raise, ◌>>=◌}
use awa_platform.Startup.{Process, or_not_initialized, get_redis, get_session_factory}

-- How the two calls of the checks end: SELECT 1 in a new session, and PING with its answer.
pub record Probes : Type 0 where
  pub select_one : Result (Unit {0})
  pub ping : Result Bool

-- `except Exception: return False`
abbrev pub or_false : Result Bool → Bool
or_false (ok b) = b
or_false (raise e) = false

unfoldable pub check_db_health : Probes → Process → Bool
check_db_health probes p =
    or_false (get_session_factory p >>= λ factory. probes.select_one >>= λ u. ok true)

unfoldable pub check_redis_health : Probes → Process → Bool
check_redis_health probes p = or_false (get_redis p >>= λ client. probes.ping)

pub record HealthReply : Type 0 where
  pub status_code : ℕ
  pub status : String
  pub checks : Option (Bool × Bool)

unfoldable pub liveness : HealthReply
liveness = record { status_code = 200; status = "ok"; checks = none }

unfoldable pub readiness : Probes → Process → HealthReply
readiness probes p =
    let db_ok = check_db_health probes p in
    let redis_ok = check_redis_health probes p in
    let ready = db_ok && redis_ok in
    record {
      status_code = if ready then 200 else 503;
      status = if ready then "ok" else "degraded";
      checks = some (db_ok, redis_ok);
    }

-- The service is ready if both globals are there and both calls succeed.
abbrev pub IsReady : Probes → Process → Type 0
IsReady probes p =
    (is_some p.session_factory ≡ true)
    × (is_some p.client ≡ true)
    × (probes.select_one ≡ ok tt)
    × (probes.ping ≡ ok true)

select_cases : (r : Result (Unit {0})) → or_false (r >>= λ u. ok true) ≡ true → r ≡ ok tt
select_cases (ok u) h = refl
select_cases (raise e) h = absurd (cc)

answers :
    (factory : Option ℕ) (select_one : Result (Unit {0})) (client : Option ℕ) (ping : Result Bool)
    → ((or_false (or_not_initialized factory >>= λ f. select_one >>= λ u. ok true)
          && or_false (or_not_initialized client >>= λ c. ping))
        ≡ true)
      ↔ ((is_some factory ≡ true)
          × (is_some client ≡ true)
          × (select_one ≡ ok tt)
          × (ping ≡ ok true))
answers none s c p = (λ h. absurd (cc), λ k. absurd (cc))
answers (some f) (raise e) c p = (λ h. absurd (cc), λ k. absurd (cc))
answers (some f) (ok u) none p = (λ h. absurd (cc), λ k. absurd (cc))
answers (some f) (ok u) (some c) (raise e) = (λ h. absurd (cc), λ k. absurd (cc))
answers (some f) (ok u) (some c) (ok b) = (λ h. (refl, refl, refl, ap ok h), λ k. ap or_false k.3)

abbrev code : Bool → ℕ
code ready = if ready then 200 else 503

code_iff : (b : Bool) → (code b ≡ 200) ↔ (b ≡ true)
code_iff b = ground arith

-- The readiness probe answers 200 exactly if the session factory and the Redis client have been
-- initialised, SELECT 1 runs, and PING is answered; the liveness probe always answers 200.
pub readiness_iff :
    (probes : Probes) (p : Process)
    → (((readiness probes p).status_code ≡ 200) ↔ IsReady probes p) × (liveness.status_code ≡ 200)
unfolding readiness liveness check_db_health check_redis_health get_session_factory get_redis
readiness_iff probes p =
    let (f, g) = code_iff (check_db_health probes p && check_redis_health probes p) in
    let (a, b) = answers p.session_factory probes.select_one p.client probes.ping in
    ((λ h. a (f h), λ k. g (b k)), refl)
