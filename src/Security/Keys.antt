-- ===== src/Security/Keys.antt =====
-- Requests that overlap, and the age of the keys that they use. Between reading the cache and
-- writing it a request waits for the provider, so that other requests run in between.
use awa_platform.Prelude.{ℕ, ◌+◌, ◌<◌, ◌≡◌, sym, ap, none, some, List, [], ◌∷◌, ◌++◌, arith}
use mathlib.Core.List.{Memᴰ}
use awa_platform.Auth.Base.{seconds}
use awa_platform.Security.{JwksCache, initial_cache, jwks_ttl_seconds, cached_keys, store_keys}

-- The cache, the times at which the requests to the provider that are under way began, and the key
-- sets that the provider has sent, with the times at which they were asked for.
pub record Traffic (Jwks : Type 0) : Type 0 where
  pub cache : JwksCache Jwks
  pub pending : List ℕ
  pub received : List (ℕ × Jwks)

module _ {Jwks : Type 0} where
  abbrev pub quiet : Traffic Jwks
  quiet = record { cache = initial_cache; pending = []; received = [] }

  -- A request that finds no keys asks the provider. Any of the requests under way can be the next
  -- one that is answered, or fails.
  pub data Step : Traffic Jwks → Traffic Jwks → Type 0 where
    ask :
        (s : Traffic Jwks) (now : ℕ)
        → cached_keys now s.cache ≡ none
        → Step s (record s { pending = now ∷ s.pending })
    answer :
        (s : Traffic Jwks) (before after : List ℕ) (t : ℕ) (keys : Jwks)
        → s.pending ≡ before ++ (t ∷ after)
        → Step s (record {
          cache = store_keys t keys s.cache;
          pending = before ++ after;
          received = (t, keys) ∷ s.received;
        })
    fail :
        (s : Traffic Jwks) (before after : List ℕ) (t : ℕ)
        → s.pending ≡ before ++ (t ∷ after)
        → Step s (record s { pending = before ++ after })

  pub data Reach : Traffic Jwks → Type 0 where
    begin : Reach quiet
    next : {s t : Traffic Jwks} → Reach s → Step s t → Reach t

  some-inj : {a b : Jwks} → some a ≡ some b → a ≡ b
  some-inj h = cc

  -- The keys of the cache are some that the provider has sent.
  abbrev IsReceived : Traffic Jwks → Type 0
  IsReceived s = (k : Jwks) → s.cache.keys ≡ some k → Memᴰ (s.cache.fetched_at, k) s.received

  Step-IsReceived : {s t : Traffic Jwks} → Step s t → IsReceived s → IsReceived t
  Step-IsReceived (ask s now e) h k i = h k i
  Step-IsReceived (answer s before after t keys e) h k i =
      Memᴰ.head (ap (λ x. (t, x)) (sym (some-inj i)))
  Step-IsReceived (fail s before after t e) h k i = h k i

  Reach-IsReceived : {s : Traffic Jwks} → Reach s → IsReceived s
  Reach-IsReceived begin k i = absurd (cc)
  Reach-IsReceived (next r step) k i = Step-IsReceived step (Reach-IsReceived r) k i

  cached_keys-fresh :
      (now : ℕ) (c : JwksCache Jwks) (k : Jwks)
      → cached_keys now c ≡ some k
      → (c.keys ≡ some k) × (now < c.fetched_at + seconds jwks_ttl_seconds)
  unfolding cached_keys
  cached_keys-fresh now c k h = ground arith

  -- However requests overlap and fail, the keys that a request finds in the cache are ones that the
  -- provider has sent, asked for less than the lifetime of an hour before.
  pub cached_keys-received :
      {s : Traffic Jwks} (now : ℕ) (k : Jwks)
      → Reach s
      → cached_keys now s.cache ≡ some k
      → (t : ℕ) × Memᴰ (t, k) s.received × (now < t + seconds jwks_ttl_seconds)
  cached_keys-received {s} now k r h =
      let (i, young) = cached_keys-fresh now s.cache k h in
      (s.cache.fetched_at, Reach-IsReceived r k i, young)
