-- ===== src/Startup/Config.antt =====
-- core/config.py: the checks that the settings pass when they are first read, and their cache. Only
-- the settings that are checked are fields here; `upper` is that of str.
use awa_platform.Prelude.{
  String, ◌≡◌, subst, ap, Bool, true, false, not, ◌&&◌, Option, none, some, List, [], ◌∷◌, str_eq,
  if◌then◌else◌, if_split,
}
use awa_platform.Prelude.Lists.{any}
use awa_platform.Exceptions.{Result, ok, raise, ◌>>=◌, value_error, Ensures, Ensures-bind}

pub record AppSettings : Type 0 where
  pub environment : String
  pub log_level : String
  pub auth_jwt_secret : String

abbrev pub dev_jwt_secret : String
dev_jwt_secret = "dev-insecure-change-me"

abbrev pub environments : List String
environments = "local" ∷ "dev" ∷ "staging" ∷ "production" ∷ []

abbrev pub log_levels : List String
log_levels = "DEBUG" ∷ "INFO" ∷ "WARNING" ∷ "ERROR" ∷ "CRITICAL" ∷ []

-- The pattern of the field `environment`.
unfoldable pub check_environment : String → Result String
check_environment v = if any (str_eq v) environments then ok v else raise value_error

unfoldable pub validate_log_level : (upper : String → String) → String → Result String
validate_log_level upper v =
    if any (str_eq (upper v)) log_levels then ok (upper v) else raise value_error

unfoldable pub is_production : AppSettings → Bool
is_production s = str_eq s.environment "production"

unfoldable pub validate_prod_secrets : AppSettings → Result AppSettings
validate_prod_secrets s =
    if is_production s && str_eq s.auth_jwt_secret dev_jwt_secret then raise value_error else ok s

-- `Settings()`: the fields, then the model. `raw` are the values from the environment.
unfoldable pub read_settings : (upper : String → String) → (raw : AppSettings) → Result AppSettings
read_settings upper raw = check_environment raw.environment >>= λ environment.
    validate_log_level upper raw.log_level >>= λ log_level.
    validate_prod_secrets (record raw { environment = environment; log_level = log_level })

-- `lru_cache` keeps a value, and no exception.
abbrev pub remember : Result AppSettings → Result AppSettings × Option AppSettings
remember (ok s) = (ok s, some s)
remember (raise e) = (raise e, none)

unfoldable pub get_settings :
    (upper : String → String)
    → (raw : AppSettings) → (cache : Option AppSettings) → Result AppSettings × Option AppSettings
get_settings upper raw (some s) = (ok s, some s)
get_settings upper raw none = remember (read_settings upper raw)

-- The interactive documentation is off in production.
unfoldable pub docs_url : AppSettings → Option String
docs_url s = if not (is_production s) then some "/docs" else none

-- The environment and the level are among those allowed, and production has its own secret.
abbrev pub IsSafe : AppSettings → Type 0
IsSafe s =
    (any (str_eq s.environment) environments ≡ true)
    × (any (str_eq s.log_level) log_levels ≡ true)
    × ((str_eq s.environment "production" && str_eq s.auth_jwt_secret dev_jwt_secret) ≡ false)

abbrev pub IsCached : Option AppSettings → Type 0
IsCached none = Unit
IsCached (some s) = IsSafe s

check_environment-Ensures :
    (v : String) → Ensures (λ e. any (str_eq e) environments ≡ true) (check_environment v)
unfolding check_environment
check_environment-Ensures v =
    if_split (Ensures (λ e. any (str_eq e) environments ≡ true)) (any (str_eq v) environments)
      (ok v) (raise value_error) (λ e. e) (λ e. tt)

validate_log_level-Ensures :
    (upper : String → String) (v : String)
    → Ensures (λ l. any (str_eq l) log_levels ≡ true) (validate_log_level upper v)
unfolding validate_log_level
validate_log_level-Ensures upper v =
    if_split (Ensures (λ l. any (str_eq l) log_levels ≡ true)) (any (str_eq (upper v)) log_levels)
      (ok (upper v)) (raise value_error) (λ e. e) (λ e. tt)

validate_prod_secrets-Ensures :
    (s : AppSettings)
    → any (str_eq s.environment) environments ≡ true
    → any (str_eq s.log_level) log_levels ≡ true
    → Ensures IsSafe (validate_prod_secrets s)
unfolding validate_prod_secrets is_production
validate_prod_secrets-Ensures s h k =
    if_split (Ensures IsSafe)
      (str_eq s.environment "production" && str_eq s.auth_jwt_secret dev_jwt_secret)
      (raise value_error) (ok s) (λ e. tt) (λ e. (h, k, e))

read_settings-IsSafe :
    (upper : String → String) (raw : AppSettings) → Ensures IsSafe (read_settings upper raw)
unfolding read_settings
read_settings-IsSafe upper raw =
    Ensures-bind (λ e. any (str_eq e) environments ≡ true) IsSafe
      (check_environment raw.environment) _ (check_environment-Ensures raw.environment)
      (λ environment h.
        Ensures-bind (λ l. any (str_eq l) log_levels ≡ true) IsSafe
          (validate_log_level upper raw.log_level) _
          (validate_log_level-Ensures upper raw.log_level)
          (λ log_level k.
            validate_prod_secrets-Ensures
              (record raw { environment = environment; log_level = log_level }) h k))

remember-IsSafe :
    (upper : String → String) (later s : AppSettings) (r : Result AppSettings)
    → Ensures IsSafe r
    → (remember r).0 ≡ ok s
    → IsSafe s × (get_settings upper later (remember r).1 ≡ (ok s, some s))
unfolding get_settings
remember-IsSafe upper later s (ok t) h e =
    let same : t ≡ s = cc in (subst IsSafe same h, ap (λ x. (ok x, some x)) same)
remember-IsSafe upper later s (raise x) h e = absurd (cc)

-- Where the cache is empty or has safe settings, the settings that `get_settings` returns are safe,
-- and the next call returns the same, whatever the environment is then.
pub get_settings-IsSafe :
    (upper : String → String) (raw later : AppSettings) (cache : Option AppSettings)
    {s : AppSettings}
    → IsCached cache
    → (get_settings upper raw cache).0 ≡ ok s
    → IsSafe s × (get_settings upper later (get_settings upper raw cache).1 ≡ (ok s, some s))
unfolding get_settings
get_settings-IsSafe upper raw later (some t) {s} h e =
    let same : t ≡ s = cc in (subst IsSafe same h, ap (λ x. (ok x, some x)) same)
get_settings-IsSafe upper raw later none {s} h e =
    remember-IsSafe upper later s (read_settings upper raw) (read_settings-IsSafe upper raw) e
