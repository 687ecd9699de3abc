-- ===== src/Types/Cache.antt =====
-- SimpleMemoryCache. A reading of the clock is an argument; the two readings of Set, and those of
-- Get, are the same. The entries of sync.Map are a dictionary; cleanup passes over it once a tick.
pub mod Freshness
use multinic.Base.{
  ℕ, ◌+◌, String, Bool, true, false, List, [], ◌∷◌, Option, none, some, ltb, if◌then◌else◌,
}
use multinic.Base.Dict.{Dict, load, store, delete}
use multinic.Api.{Time}

module _ {ℓ} (V : Type ℓ) where
  pub record CacheEntry : Type ℓ where
    pub value : V
    pub expires_at : Time
    pub access_count : ℕ
    pub last_accessed : Time

  pub record SimpleMemoryCache : Type ℓ where
    pub cache : Dict CacheEntry
    pub ttl : ℕ

module _ {ℓ} {V : Type ℓ} where
  unfoldable pub set : Time → String → V → SimpleMemoryCache V → SimpleMemoryCache V
  set now key v c = record c {
    cache =
        store key
          (record { value = v; expires_at = now + c.ttl; access_count = 0; last_accessed = now })
          c.cache;
  }

  -- A live entry: its statistics are updated in place.
  abbrev pub touch : Time → CacheEntry V → CacheEntry V
  touch now e = record e { access_count = e.access_count + 1; last_accessed = now }

  unfoldable pub get : Time → String → SimpleMemoryCache V → Option V × SimpleMemoryCache V
  get now key c = elim (load key c.cache) [
    | none ↦ (none, c)
    | some e ↦
        if ltb now e.expires_at
        then (some e.value, record c { cache = store key (touch now e) c.cache })
        else (none, record c { cache = delete key c.cache })
  ]

  -- The Range of one tick: the entries of `keys`, in the order of the iteration.
  unfoldable pub sweep : Time → List String → SimpleMemoryCache V → SimpleMemoryCache V
  sweep now [] c = c
  sweep now (key ∷ keys) c = elim (load key c.cache) [
    | none ↦ sweep now keys c
    | some e ↦
        if ltb e.expires_at now
        then sweep now keys (record c { cache = delete key c.cache })
        else sweep now keys c
  ]
