-- ===== src/Morpheus/Cache.antt =====
-- The prefetch cache of packages/morpheus/src/morpheus.js: `prefetch`, the settlement of its promise,
-- `takePrefetch`, `pruneCache` and `clearCache`. The keys are those that `cacheKey` returns; `now`
-- is `Date.now()` at the call.
pub mod Prune
pub mod Reuse
pub mod Bounds
use hacienda.Prelude.{
  ℕ, zero, suc, ◌+◌, Bool, true, false, Option, none, some, List, [], ◌∷◌, Text, JsMap, map_get,
  map_set, map_delete, length, if◌then◌else◌,
}
use hacienda.Morpheus.State.{
  JsNumber, nat, num_lt, num_le, num_plus, Page, page_cacheable, Entry, Morpheus,
}

-- `for (const [key, entry] of this.cache) if (entry.expiresAt <= now) this.cache.delete(key)`:
-- the first argument is what is still to be visited.
unfoldable pub delete_expired : ℕ → JsMap Entry → JsMap Entry → JsMap Entry
delete_expired now [] cache = cache
delete_expired now ((key, entry) ∷ rest) cache =
    delete_expired now rest
      (if num_le entry.expires_at (nat now) then map_delete key cache else cache)

-- `this.cache.delete(this.cache.keys().next().value)`.
unfoldable pub delete_first : JsMap Entry → JsMap Entry
delete_first [] = []
delete_first ((key, entry) ∷ rest) = map_delete key ((key, entry) ∷ rest)

-- `while (this.cache.size > this.cacheSize)`, on fuel.
unfoldable pub shrink : ℕ → JsNumber → JsMap Entry → JsMap Entry
unfolding delete_first
shrink zero limit cache = cache
shrink (suc fuel) limit cache =
    let rest = shrink fuel limit (delete_first cache) in
    if num_lt limit (nat (length cache)) then rest else cache

-- Each round deletes an entry, so the number of entries is fuel enough.
unfoldable pub prune_cache : ℕ → JsNumber → JsMap Entry → JsMap Entry
unfolding delete_expired shrink
prune_cache now limit cache =
    let live = delete_expired now cache cache in shrink (length live) limit live

-- A fresh entry answers; else its place is given to a new request, behind all others.
unfoldable pub start_prefetch : Text → ℕ → Morpheus → Morpheus × ℕ
unfolding prune_cache
start_prefetch key now m =
    let promise = m.next_request in
    let entry : Entry = record { promise = promise; expires_at = num_plus now m.cache_ttl } in
    let cache = map_set key entry (map_delete key m.cache) in
    (record m { cache = prune_cache now m.cache_size cache; next_request = suc promise }, promise)

unfoldable pub prefetch : Text → ℕ → Morpheus → Morpheus × ℕ
unfolding start_prefetch
prefetch key now m = elim (map_get key m.cache) [
  | none ↦ start_prefetch key now m
  | some existing ↦
      if num_lt (nat now) existing.expires_at
      then (m, existing.promise)
      else start_prefetch key now m
]

-- The `then` and `catch` of the promise: what it resolves to, `none` for null. A page that may not
-- be stored and a failed request both give up the key.
unfoldable pub settle_prefetch {ℓ} :
    {N : Type ℓ} → Text → Option (Page N) → Morpheus → Morpheus × Option (Page N)
settle_prefetch key none m = (record m { cache = map_delete key m.cache }, none)
settle_prefetch key (some page) m =
    (if page_cacheable page then m else record m { cache = map_delete key m.cache }, some page)

-- The entry is used up, whether or not it is still fresh.
unfoldable pub take_prefetch : Text → ℕ → Morpheus → Morpheus × Option ℕ
take_prefetch key now m = elim (map_get key m.cache) [
  | none ↦ (m, none)
  | some entry ↦ (
    record m { cache = map_delete key m.cache },
    if num_le entry.expires_at (nat now) then none else some entry.promise,
  )
]

unfoldable pub clear_cache : Morpheus → Morpheus
clear_cache m = record m { cache = [] }
