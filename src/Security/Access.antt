-- ===== src/Security/Access.antt =====
-- Who is let in by a token of the identity provider, and when the service is unavailable.
use awa_platform.Prelude.{
  ℕ, String, ◌≡◌, ◌≢◌, ◌↔◌, ap, ◌∙◌, sym, refl, subst, true, false, Option, none, some, arith,
  str_eq, Bool-cases, inl, inr,
}
use awa_platform.Prelude.Lists.{any}
use awa_platform.Api.{Reply, reply, http_exception, unhandled}
use awa_platform.Api.Guard.{reply_inj, refused_not_reply}
use awa_platform.Security.{
  JwksCache, Fetched, fetched, http_error, not_json, Idp, IdpClaims, Jose, CurrentUser, has_role,
  cached_keys, keys_or_fetch, get_jwks, verify_under, decode_token, user_of, get_current_user,
  with_role, require_role, or_unauthorized, subject_of, roles_of,
}

abbrev status_of : {A : Type 0} → Reply A → ℕ
status_of (reply a) = 200
status_of (http_exception status) = status
status_of (unhandled e) = 500

module _ {Jwks : Type 0} where
  -- The keys that a request uses: those of the cache, or those that the provider answers with.
  pub data Uses (now : ℕ) (answer : Fetched Jwks) (c : JwksCache Jwks) : Jwks → Type 0 where
    from_cache : {k : Jwks} → cached_keys now c ≡ some k → Uses now answer c k
    from_provider : {k : Jwks} → cached_keys now c ≡ none → answer ≡ fetched k → Uses now answer c k

module _ {Jwks Value : Type 0} (jose : Jose Jwks Value) (idp : Idp) where
  not_unavailable : {A : Type 0} (r : Reply A) → status_of r ≢ 503 → r ≢ http_exception 503
  not_unavailable r n h = n (ap status_of h)

  unauthorized-available :
      (r : Option (IdpClaims Value))
      → status_of (user_of jose idp (or_unauthorized jose idp r)) ≢ 503
  unfolding user_of
  unauthorized-available none h = omega (arith, h)
  unauthorized-available (some claims) h =
      elim (Bool-cases (str_eq (subject_of jose idp claims.sub) "")) [
        | inl e ↦ omega (arith, rw e at h)
        | inr e ↦ omega (arith, rw e at h)
      ]

  keys_unavailable :
      (token : String) (now : ℕ) (f : Fetched Jwks)
      → (user_of jose idp (verify_under jose idp token now f) ≡ http_exception 503)
        ↔ (f ≡ http_error)
  unfolding user_of verify_under
  keys_unavailable token now (fetched keys) = (
    λ h. absurd (
        unauthorized-available
          (jose.decode token keys idp.auth_jwt_algorithms idp.auth_audience idp.auth_issuer now)
          (ap status_of h)),
    λ h. absurd (cc),
  )
  keys_unavailable token now http_error = (λ h. refl, λ h. refl)
  keys_unavailable token now not_json = (λ h. absurd (cc), λ h. absurd (cc))

  found_or_fetched :
      (o : Option Jwks) (now : ℕ) (answer : Fetched Jwks) (c : JwksCache Jwks)
      → ((keys_or_fetch o now answer c).0 ≡ http_error) ↔ ((o ≡ none) × (answer ≡ http_error))
  found_or_fetched (some k) now answer c = (λ h. absurd (cc), λ h. absurd (cc))
  found_or_fetched none now (fetched k) c = (λ h. absurd (cc), λ h. absurd (cc))
  found_or_fetched none now http_error c = (λ h. (refl, refl), λ h. refl)
  found_or_fetched none now not_json c = (λ h. absurd (cc), λ h. absurd (cc))

  -- A token is answered with 503 exactly if the cache has no keys that are young enough and the
  -- provider cannot be reached; a failure of the provider within the lifetime of the keys is not
  -- noticed.
  get_current_user-unavailable_iff :
      (token : String) (now : ℕ) (answer : Fetched Jwks) (c : JwksCache Jwks)
      → str_eq token "" ≡ false
      → ((get_current_user jose idp (some token) now answer c).0 ≡ http_exception 503)
        ↔ ((cached_keys now c ≡ none) × (answer ≡ http_error))
  unfolding get_current_user get_jwks decode_token
  get_current_user-unavailable_iff token now answer c present =
      let f = keys_or_fetch (cached_keys now c) now answer c in
      let (to, from) = keys_unavailable token now f.0 in
      let (found, lost) = found_or_fetched (cached_keys now c) now answer c in
      rw present (λ h. found (to h), λ h. from (lost h))

  kept_without_keys :
      (answer : Fetched Jwks) (o : Option Jwks) (now : ℕ) (c : JwksCache Jwks)
      → ((k : Jwks) → answer ≢ fetched k)
      → (keys_or_fetch o now answer c).1 ≡ c
  kept_without_keys answer (some k) now c h = refl
  kept_without_keys (fetched k) none now c h = absurd (h k refl)
  kept_without_keys http_error none now c h = refl
  kept_without_keys not_json none now c h = refl

  -- The user that the claims of the token give.
  user_claims :
      (r : Reply (IdpClaims Value)) (user : CurrentUser Value)
      → user_of jose idp r ≡ reply user
      → (r ≡ reply user.raw_claims)
        × (str_eq user.subject "" ≡ false)
        × (user.roles ≡ roles_of jose idp user.raw_claims.roles)
  unfolding user_of
  user_claims (reply claims) user h =
      elim (Bool-cases (str_eq (subject_of jose idp claims.sub) "")) [
        | inl e ↦ absurd (refused_not_reply (rw e at h))
        | inr e ↦
            let same = reply_inj (rw e at h) in
            (
              ap (λ (u : CurrentUser Value). reply u.raw_claims) same,
              sym (ap (λ (u : CurrentUser Value). str_eq u.subject "") same) ∙ e,
              sym (ap (λ (u : CurrentUser Value). u.roles) same)
                  ∙ ap (λ (u : CurrentUser Value). roles_of jose idp u.raw_claims.roles) same,
            )
      ]
  user_claims (http_exception status) user h = absurd (cc)
  user_claims (unhandled e) user h = absurd (cc)

  verified :
      (r : Option (IdpClaims Value)) (claims : IdpClaims Value)
      → or_unauthorized jose idp r ≡ reply claims
      → r ≡ some claims
  verified none claims h = absurd (cc)
  verified (some c) claims h = ap some (reply_inj h)

  role_held :
      (role : String) (r : Reply (CurrentUser Value)) (user : CurrentUser Value)
      → with_role jose idp role r ≡ reply user
      → (r ≡ reply user) × (has_role user role ≡ true)
  role_held role (reply u) user h = elim (Bool-cases (has_role u role)) [
    | inl e ↦
        let same : u ≡ user = reply_inj (rw e at h) in
        (ap reply same, ap (λ (v : CurrentUser Value). has_role v role) (sym same) ∙ e)
    | inr e ↦ absurd (refused_not_reply (rw e at h))
  ]
  role_held role (http_exception status) user h = absurd (cc)
  role_held role (unhandled e) user h = absurd (cc)

  decoded :
      (token : String) (now : ℕ) (answer : Fetched Jwks) (c : JwksCache Jwks) (o : Option Jwks)
      (claims : IdpClaims Value)
      → cached_keys now c ≡ o
      → verify_under jose idp token now (keys_or_fetch o now answer c).0 ≡ reply claims
      → (k : Jwks) × Uses now answer c k
        × (jose.decode token k idp.auth_jwt_algorithms idp.auth_audience idp.auth_issuer now
            ≡ some claims)
  unfolding verify_under
  decoded token now answer c (some k) claims e h = (
    k,
    from_cache e,
    verified (jose.decode token k idp.auth_jwt_algorithms idp.auth_audience idp.auth_issuer now)
        claims h,
  )
  decoded token now (fetched k) c none claims e h = (
    k,
    from_provider e refl,
    verified (jose.decode token k idp.auth_jwt_algorithms idp.auth_audience idp.auth_issuer now)
        claims h,
  )
  decoded token now http_error c none claims e h = absurd (cc)
  decoded token now not_json c none claims e h = absurd (cc)

  -- Whoever passes `require_role` presented a token, which jose verified under the keys of the cache
  -- or, where these are too old, under those of the provider; its subject is not empty, and the role
  -- is among the roles of its claims.
  pub require_role_checked :
      (role : String) (credentials : Option String) (now : ℕ) (answer : Fetched Jwks)
      (c : JwksCache Jwks) (user : CurrentUser Value)
      → (require_role jose idp role credentials now answer c).0 ≡ reply user
      → (token : String) × (k : Jwks) × (credentials ≡ some token)
        × Uses now answer c k
        × (jose.decode token k idp.auth_jwt_algorithms idp.auth_audience idp.auth_issuer now
            ≡ some user.raw_claims)
        × (str_eq user.subject "" ≡ false)
        × (any (λ r. str_eq r role) (roles_of jose idp user.raw_claims.roles) ≡ true)
  unfolding require_role get_current_user decode_token get_jwks has_role
  require_role_checked role none now answer c user h = absurd (cc)
  require_role_checked role (some token) now answer c user h = elim (Bool-cases (str_eq token "")) [
    | inl e ↦ absurd (refused_not_reply (rw e at h))
    | inr e ↦
        let (a, b) =
          role_held role
            (user_of jose idp
              (verify_under jose idp token now (keys_or_fetch (cached_keys now c) now answer c).0))
            user (rw e at h) in
        let (claims, subject, roles) =
          user_claims
            (verify_under jose idp token now (keys_or_fetch (cached_keys now c) now answer c).0)
            user a in
        let (k, uses, verified) =
          decoded token now answer c (cached_keys now c) user.raw_claims refl claims in
        (
          token,
          k,
          refl,
          uses,
          verified,
          subject,
          subst (λ rs. any (λ r. str_eq r role) rs ≡ true) roles b,
        )
  ]
