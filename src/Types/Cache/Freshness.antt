-- ===== src/Types/Cache/Freshness.antt =====
-- What Get answers after Set, Get and sweeps of any keys.
use multinic.Base.{
  ◌+◌, ◌≤◌, ◌≡◌, refl, String, false, List, [], ◌∷◌, Option, none, some, ltb, arith, eq_iff,
  eq_refl, ◌∙◌, All, ◌==◌, if◌then◌else◌, Option-cases, inl, inr,
}
use multinic.Base.Dict.{load, delete, load-store, load-delete}
use multinic.Api.{Time}
use multinic.Types.Cache.{CacheEntry, SimpleMemoryCache, set, get, touch, sweep}

-- A call on the cache, with the reading of the clock.
pub data Call {ℓ} (V : Type ℓ) : Type ℓ where
  set_call : Time → String → V → Call V
  get_call : Time → String → Call V
  tick : Time → List String → Call V

module _ {ℓ} {V : Type ℓ} where
  unfoldable pub run : Call V → SimpleMemoryCache V → SimpleMemoryCache V
  unfolding set get sweep
  run (set_call now k v) c = set now k v c
  run (get_call now k) c = (get now k c).1
  run (tick now ks) c = sweep now ks c

  -- What the cache holds for a key at a time: the specification of Get.
  abbrev pub live : Time → Option (CacheEntry V) → Option V
  live now none = none
  live now (some e) = if ltb now e.expires_at then some e.value else none

  unfoldable pub held : Time → String → SimpleMemoryCache V → Option V
  held now k c = live now (load k c.cache)

  pub get-held :
      (now : Time) (k : String) (c : SimpleMemoryCache V) → (get now k c).0 ≡ held now k c
  unfolding get held
  get-held now k c = ground arith

  held-get :
      (now t : Time) (k j : String) (c : SimpleMemoryCache V)
      → now ≤ t
      → held t j (get now k c).1 ≡ held t j c
  unfolding get held
  held-get now t k j c h = elim (Option-cases (load k c.cache)) [
    | inl absent ↦ rw (absent, get) refl
    | inr (e, there) ↦
        ground
          (arith, there, load-store k j (touch now e) c.cache, load-delete k j c.cache, eq_iff k j)
  ]

  held-set :
      (now t : Time) (k j : String) (v : V) (c : SimpleMemoryCache V)
      → (k == j) ≡ false
      → held t j (set now k v c) ≡ held t j c
  unfolding set held
  held-set now t k j v c h = rw (load-store, h) refl

  held-sweep :
      (now t : Time) (ks : List String) (j : String) (c : SimpleMemoryCache V)
      → now ≤ t
      → held t j (sweep now ks c) ≡ held t j c
  unfolding sweep held
  held-sweep now t [] j c h = refl
  held-sweep now t (k ∷ ks) j c h = elim (Option-cases (load k c.cache)) [
    | inl absent ↦ rw (absent, sweep) (held-sweep now t ks j c h)
    | inr (e, there) ↦ ground (
      arith,
      there,
      held-sweep now t ks j c h,
      held-sweep now t ks j (record c { cache = delete k c.cache }) h,
      load-delete k j c.cache,
      eq_iff k j,
    )
  ]

  -- The call comes no later than `t`, and does not set the key.
  abbrev pub Harmless : Time → String → Call V → Type 0
  Harmless t j (set_call now k v) = (now ≤ t) × ((k == j) ≡ false)
  Harmless t j (get_call now k) = now ≤ t
  Harmless t j (tick now ks) = now ≤ t

  unfoldable pub run_all : List (Call V) → SimpleMemoryCache V → SimpleMemoryCache V
  run_all [] c = c
  run_all (x ∷ xs) c = run_all xs (run x c)

  held-run :
      (t : Time) (j : String) (x : Call V) (c : SimpleMemoryCache V)
      → Harmless t j x
      → held t j (run x c) ≡ held t j c
  unfolding run
  held-run t j (set_call now k v) c h = held-set now t k j v c h.1
  held-run t j (get_call now k) c h = held-get now t k j c h
  held-run t j (tick now ks) c h = held-sweep now t ks j c h

  held-run_all :
      (t : Time) (j : String) (xs : List (Call V)) (c : SimpleMemoryCache V)
      → All (Harmless t j) xs
      → held t j (run_all xs c) ≡ held t j c
  unfolding run_all
  held-run_all t j [] c h = refl
  held-run_all t j (x ∷ xs) c h = held-run_all t j xs (run x c) h.1 ∙ held-run t j x c h.0

  -- A value that was set is what Get answers until the time to live is over, and no value is answered
  -- from then on, whatever calls that do not set the key come in between: gets and sweeps of any
  -- keys, and sets of others.
  pub get-set :
      (now t : Time) (k : String) (v : V) (xs : List (Call V)) (c : SimpleMemoryCache V)
      → All (Harmless t k) xs
      → (get t k (run_all xs (set now k v c))).0 ≡ (if ltb t (now + c.ttl) then some v else none)
  unfolding set held
  get-set now t k v xs c h =
      get-held t k (run_all xs (set now k v c))
      ∙ held-run_all t k xs (set now k v c) h
      ∙ rw (load-store, eq_refl k) refl
