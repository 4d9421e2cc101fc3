-- ===== src/Startup/Tests.antt =====
-- One life of the service.
use awa_platform.Prelude.{◌≡◌, ◌↔◌, refl, none, []}
use awa_platform.Exceptions.{ok, raise, broker_error, runtime_error}
use awa_platform.Startup.{
  Process, Outcomes, init_engine, init_redis, init_kafka_producer, stop_producer,
  dispose_kafka_producer, close_client, close_pool, dispose_redis, dispose_found, dispose_engine,
  get_session_factory, get_redis, start_all, dispose_all, lifespan,
}
use awa_platform.Startup.Lifecycle.{AllSucceed, Succeeds, lifespan-releases_iff}

abbrev fresh : Process
fresh = record {
  engine = none;
  session_factory = none;
  pool = none;
  client = none;
  producer = none;
  opened = [];
  next = 0;
}

abbrev smooth : Outcomes
smooth = record { start = ok tt; stop = ok tt; aclose = ok tt; disconnect = ok tt; dispose = ok tt }

-- After the shutdown Redis is gone, and the session factory is still handed out.
stale_factory :
    (get_session_factory (lifespan smooth (ok tt) fresh).1 ≡ ok 0)
    × (get_redis (lifespan smooth (ok tt) fresh).1 ≡ raise runtime_error)
unfolding get_session_factory get_redis lifespan start_all dispose_all init_engine init_redis
    init_kafka_producer dispose_kafka_producer stop_producer dispose_redis close_client close_pool
    dispose_engine dispose_found
stale_factory = (refl, refl)

lifespan-releases_iff_example :
    ((lifespan (record smooth { start = raise broker_error }) (ok tt) fresh).1.opened ≡ [])
    ↔ (AllSucceed (record smooth { start = raise broker_error }) × Succeeds (ok tt))
lifespan-releases_iff_example =
    lifespan-releases_iff fresh tt (record smooth { start = raise broker_error }) (ok tt)
