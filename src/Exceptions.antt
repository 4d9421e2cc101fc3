-- ===== src/Exceptions.antt =====
-- The exceptions of services/exceptions.py, with those of the libraries that reach the callers:
-- `integrity_error` and `pending_rollback_error` are SQLAlchemy's, `broker_error` stands for any
-- failure of a Redis or Kafka call, `missing_greenlet` is that of a lazy load in an asynchronous session, `key_error`, `type_error`, `attribute_error`, `value_error`,
-- `runtime_error`,
-- `invalid_operation` (of decimal) and `assertion_error` are Python's.
use awa_platform.Prelude.{ℕ, String}

pub data Exception : Type 0 where
  auction_not_found_error : ℕ → Exception
  auction_not_live_error : ℕ → String → Exception
  bid_not_eligible_error : String → Exception
  bid_publish_error : Exception
  malformed_bid_event : Exception
  email_already_registered_error : String → Exception
  invalid_credentials_error : Exception
  account_inactive_error : Exception
  account_locked_error : ℕ → Exception
  invalid_token_error : Exception
  vehicle_lookup_not_found_error : String → ℕ → Exception
  duplicate_chassis_number_error : String → Exception
  role_not_found_error : String → Exception
  last_role_removal_error : ℕ → Exception
  integrity_error data_error pending_rollback_error broker_error : Exception
  missing_greenlet : Exception
  key_error type_error attribute_error value_error invalid_operation assertion_error : Exception
  runtime_error no_result_found multiple_results_found : Exception

pub data Result {ℓ} (A : Type ℓ) : Type ℓ where
  ok : A → Result A
  raise : Exception → Result A

-- A step that may raise, without state.
infixl 5 ◌>>=◌
abbrev pub ◌>>=◌ {ℓ κ} : {A : Type ℓ} {B : Type κ} → Result A → (A → Result B) → Result B
ok a >>= f = f a
raise e >>= f = raise e

-- What a result that is no exception satisfies.
abbrev pub Ensures {ℓ κ} : {A : Type ℓ} → (A → Type κ) → Result A → Type κ
Ensures P (ok a) = P a
Ensures P (raise e) = Unit

pub Ensures-bind {ℓ κ μ ν} :
    {A : Type ℓ} {B : Type κ} (P : A → Type μ) (Q : B → Type ν) (r : Result A) (f : A → Result B)
    → Ensures P r
    → ((a : A) → P a → Ensures Q (f a))
    → Ensures Q (r >>= f)
Ensures-bind P Q (ok a) f h k = k a h
Ensures-bind P Q (raise e) f h k = tt
