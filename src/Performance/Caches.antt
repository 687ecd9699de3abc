-- ===== src/Performance/Caches.antt =====
-- TokenCache and NetworkCache. A sync.Map is a dictionary; the readings of the clock are arguments.
-- Times and durations are natural numbers of nanoseconds: a token that is kept for less than the five
-- minutes of margin has expired at once, as a time before the epoch of the clock.
pub mod Kept
use multinic.Base.{ℕ, ◌+◌, ◌-◌, ◌*◌, String, List, [], Option, none, some, ltb, if◌then◌else◌}
use multinic.Base.Dict.{Dict, load, store, delete}

pub record CachedToken : Type 0 where
  pub token : String
  pub expires_at : ℕ

abbrev pub expiry_margin : ℕ
expiry_margin = 5 * 60 * 1000000000

-- The answer, and the cache afterwards: an expired token is deleted.
unfoldable pub get_token : ℕ → String → Dict CachedToken → Option String × Dict CachedToken
get_token now key cache = elim (load key cache) [
  | none ↦ (none, cache)
  | some cached ↦
      if ltb now cached.expires_at then (some cached.token, cache) else (none, delete key cache)
]

unfoldable pub set_token : ℕ → String → String → ℕ → Dict CachedToken → Dict CachedToken
set_token now key token expires_in cache =
    store key (record { token = token; expires_at = now + expires_in - expiry_margin }) cache

-- CachedNetwork; the data is any value.
pub record CachedNetwork (V : Type 0) : Type 0 where
  pub data_value : V
  pub expires_at : ℕ

pub record NetworkCache (V : Type 0) : Type 0 where
  pub networks : Dict (CachedNetwork V)
  pub cache_expiry : ℕ

module _ {V : Type 0} where
  unfoldable pub get_network : ℕ → String → NetworkCache V → Option V × NetworkCache V
  get_network now key cache = elim (load key cache.networks) [
    | none ↦ (none, cache)
    | some cached ↦
        if ltb now cached.expires_at
        then (some cached.data_value, cache)
        else (none, record cache { networks = delete key cache.networks })
  ]

  unfoldable pub set_network : ℕ → String → V → NetworkCache V → NetworkCache V
  set_network now key value cache = record cache {
    networks =
        store key (record { data_value = value; expires_at = now + cache.cache_expiry })
          cache.networks;
  }
