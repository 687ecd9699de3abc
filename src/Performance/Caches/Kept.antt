-- ===== src/Performance/Caches/Kept.antt =====
-- What the caches answer after a Set.
use multinic.Base.{ℕ, ◌+◌, ◌-◌, String, ◌≡◌, ◌==◌, none, some, ltb, arith, if◌then◌else◌}
use multinic.Base.Dict.{Dict, load-store}
use multinic.Performance.Caches.{
  CachedToken, NetworkCache, expiry_margin, get_token, set_token, get_network, set_network,
}

-- A token that was set is answered until five minutes before its expiry, and never after; the tokens
-- of other keys are answered as before.
pub get_token-set_token :
    (at now : ℕ) (key j token : String) (expires_in : ℕ) (cache : Dict CachedToken)
    → (get_token now j (set_token at key token expires_in cache)).0 ≡ (
        if key == j
        then (if ltb now (at + expires_in - expiry_margin) then some token else none)
        else (get_token now j cache).0)
unfolding get_token set_token
get_token-set_token at now key j token expires_in cache = ground (
  arith,
  load-store key j (record { token = token; expires_at = at + expires_in - expiry_margin }) cache,
)

-- The data of a network that was set is answered until the expiry of the cache is over, and never
-- after; the data of other keys is answered as before.
pub get_network-set_network :
    {V : Type 0} (at now : ℕ) (key j : String) (value : V) (cache : NetworkCache V)
    → (get_network now j (set_network at key value cache)).0 ≡ (
        if key == j
        then (if ltb now (at + cache.cache_expiry) then some value else none)
        else (get_network now j cache).0)
unfolding get_network set_network
get_network-set_network at now key j value cache = ground (
  arith,
  load-store key j (record { data_value = value; expires_at = at + cache.cache_expiry })
      cache.networks,
)
