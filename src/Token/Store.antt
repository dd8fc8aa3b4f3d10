-- ===== src/Token/Store.antt =====
-- The list of revoked tokens (server/src/db/token-store.ts): the interface that the token service uses,
-- with the laws that it relies on, and the two stores behind it. The SHA-256 of a token and the Redis
-- client are parameters.
use learnvault.Prelude.{
  ℕ, ◌+◌, ◌*◌, ◌≤◌, ◌<◌, ◌≡◌, ◌≢◌, refl, sym, ap, ◌∙◌, String, Option, none, some, Bool, true,
  false, leb, ltb, str_eq, str_eq→eq, str_eq_refl, not_str_eq, Bool-cases, inl, inr, if◌then◌else◌,
  arith,
}
use Prim.Native.String.{◌++◌}
use text.Mathlib.TextLemmas.{append_cancel_left}

-- The first argument of an operation is the time in milliseconds; `revoke now token ttl_seconds`.
pub record TokenStore (S : Type 0) : Type 0 where
  pub is_revoked : ℕ → String → S → Bool × S
  pub revoke : ℕ → String → ℕ → S → S

-- A revoked token stays so until its time to live has passed, and asking, or revoking another token,
-- changes no later answer.
pub record IsTokenStore {S : Type 0} (store : TokenStore S) : Type 0 where
  pub revoked :
      (now t ttl : ℕ) (token : String) (s : S)
      → now ≤ t
      → t < now + ttl * 1000
      → (store.is_revoked t token (store.revoke now token ttl s)).0 ≡ true
  pub asked :
      (now t : ℕ) (asked token : String) (s : S)
      → now ≤ t
      → (store.is_revoked t token (store.is_revoked now asked s).1).0
        ≡ (store.is_revoked t token s).0
  pub other :
      (now t ttl : ℕ) (revoked token : String) (s : S)
      → revoked ≢ token
      → now ≤ t
      → (store.is_revoked t token (store.revoke now revoked ttl s)).0
        ≡ (store.is_revoked t token s).0

-- The map from a hash to `expiresAt`, as the function of its `get`.
abbrev pub Memory : Type 0
Memory = String → Option ℕ

abbrev pub put : String → Option ℕ → Memory → Memory
put h e map = λ g. if str_eq h g then e else map g

abbrev pub is_expired : ℕ → Option ℕ → Bool
is_expired now none = false
is_expired now (some expires_at) = leb expires_at now

abbrev pub has : Option ℕ → Bool
has none = false
has (some expires_at) = true

unfoldable pub sweep : ℕ → String → Memory → Memory
sweep now h map = if is_expired now (map h) then put h none map else map

module _ (hash_token : String → String) where
  unfoldable pub memory_is_revoked : ℕ → String → Memory → Bool × Memory
  unfolding sweep
  memory_is_revoked now token map =
      let swept = sweep now (hash_token token) map in (has (swept (hash_token token)), swept)

  unfoldable pub memory_revoke : ℕ → String → ℕ → Memory → Memory
  memory_revoke now token ttl map = put (hash_token token) (some (now + ttl * 1000)) map

  abbrev pub create_memory_store : TokenStore Memory
  create_memory_store = record { is_revoked = memory_is_revoked; revoke = memory_revoke }

abbrev live : ℕ → Option ℕ → Bool
live t none = false
live t (some expires_at) = ltb t expires_at

expired_live : (now t : ℕ) (e : Option ℕ) → is_expired now e ≡ true → now ≤ t → live t e ≡ false
expired_live now t none h k = refl
expired_live now t (some e) h k = ground (arith, h, k)

has-live : (now : ℕ) (e : Option ℕ) → is_expired now e ≡ false → has e ≡ live now e
has-live now none h = refl
has-live now (some e) h = ground (arith, h)

sweep-live :
    (now t : ℕ) (h g : String) (map : Memory)
    → now ≤ t
    → live t (sweep now h map g) ≡ live t (map g)
unfolding sweep
sweep-live now t h g map k = elim (Bool-cases (is_expired now (map h))) [
  | inl e ↦ rw e (elim (Bool-cases (str_eq h g)) [
    | inl same ↦
        rw same
          (sym (expired_live now t (map h) e k) ∙ ap (λ c. live t (map c)) (str_eq→eq h g same))
    | inr differ ↦ rw differ refl
  ])
  | inr e ↦ rw e refl
]

sweep-has : (now : ℕ) (h : String) (map : Memory) → has (sweep now h map h) ≡ live now (map h)
unfolding sweep
sweep-has now h map = elim (Bool-cases (is_expired now (map h))) [
  | inl e ↦ rw (e, str_eq_refl h, expired_live now now (map h) e (omega arith)) refl
  | inr e ↦ rw e (has-live now (map h) e)
]

module _ (hash_token : String → String) where
  is_revoked-live :
      (t : ℕ) (token : String) (map : Memory)
      → (memory_is_revoked hash_token t token map).0 ≡ live t (map (hash_token token))
  unfolding memory_is_revoked
  is_revoked-live t token map = sweep-has t (hash_token token) map

  -- The store in memory keeps the laws, if no two tokens have the same hash.
  pub create_memory_store-IsTokenStore :
      ((a b : String) → hash_token a ≡ hash_token b → a ≡ b)
      → IsTokenStore (create_memory_store hash_token)
  unfolding memory_is_revoked memory_revoke
  create_memory_store-IsTokenStore injective = record {
    revoked = λ now t ttl token s k l.
        is_revoked-live t token (memory_revoke hash_token now token ttl s)
        ∙ rw (str_eq_refl (hash_token token)) (ground arith);
    asked = λ now t asked token s k.
        is_revoked-live t token (memory_is_revoked hash_token now asked s).1
        ∙ sweep-live now t (hash_token asked) (hash_token token) s k
        ∙ sym (is_revoked-live t token s);
    other = λ now t ttl revoked token s ne k.
        is_revoked-live t token (memory_revoke hash_token now revoked ttl s)
        ∙ rw
            (not_str_eq (hash_token revoked) (hash_token token)
              (λ e. ne (injective revoked token e)))
            (sym (is_revoked-live t token s));
  }

-- `get` and `set … EX` of the Redis client.
pub record RedisClient (S : Type 0) : Type 0 where
  pub get : ℕ → String → S → Option String
  pub set_ex : ℕ → String → String → ℕ → S → S

-- What Redis documents: a key that is set with EX is there until its time to live has passed, and no
-- other key changes.
pub record IsRedis {S : Type 0} (client : RedisClient S) : Type 0 where
  pub get-set_ex :
      (now t ttl : ℕ) (key value : String) (s : S)
      → now ≤ t
      → t < now + ttl * 1000
      → client.get t key (client.set_ex now key value ttl s) ≡ some value
  pub get-set_ex-other :
      (now t ttl : ℕ) (key other value : String) (s : S)
      → key ≢ other
      → now ≤ t
      → client.get t other (client.set_ex now key value ttl s) ≡ client.get t other s

abbrev redis_key : String → String
redis_key h = "learnvault:blocklist:" ++ h

abbrev is_some : Option String → Bool
is_some none = false
is_some (some v) = true

module _ {S : Type 0} (hash_token : String → String) (client : RedisClient S) where
  unfoldable pub redis_is_revoked : ℕ → String → S → Bool × S
  redis_is_revoked now token s = (is_some (client.get now (redis_key (hash_token token)) s), s)

  unfoldable pub redis_revoke : ℕ → String → ℕ → S → S
  redis_revoke now token ttl s =
      if ltb 0 ttl then client.set_ex now (redis_key (hash_token token)) "1" ttl s else s

  abbrev pub create_redis_store : TokenStore S
  create_redis_store = record { is_revoked = redis_is_revoked; revoke = redis_revoke }

  -- Over a Redis client that keeps keys as documented, and a hash without collisions, the store in Redis
  -- keeps the laws, although a time to live of 0 is not sent to it.
  pub create_redis_store-IsTokenStore :
      IsRedis client
      → ((a b : String) → hash_token a ≡ hash_token b → a ≡ b)
      → IsTokenStore create_redis_store
  unfolding redis_is_revoked redis_revoke
  create_redis_store-IsTokenStore redis injective = record {
    revoked = λ now t ttl token s k l.
        let positive : ltb 0 ttl ≡ true = ground arith in
        rw (positive, redis.get-set_ex now t ttl (redis_key (hash_token token)) "1" s k l) refl;
    asked = λ now t asked token s k. refl;
    other = λ now t ttl revoked token s ne k.
        let keys : redis_key (hash_token revoked) ≢ redis_key (hash_token token) = λ e. ne (
          injective revoked token (
            append_cancel_left "learnvault:blocklist:" (hash_token revoked) (hash_token token)
              e)) in
        let kept =
          redis.get-set_ex-other now t ttl (redis_key (hash_token revoked))
            (redis_key (hash_token token)) "1" s keys k in
        elim (Bool-cases (ltb 0 ttl)) [ inl e ↦ rw e (ap is_some kept) | inr e ↦ rw e refl ];
  }
