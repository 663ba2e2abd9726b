-- ===== src/Morpheus/Cache/Reuse.antt =====
-- What a prefetch leaves for the navigation that follows it (packages/morpheus/src/morpheus.js).
use hacienda.Prelude.{
  ℕ, zero, suc, ◌+◌, ◌≤◌, ◌<◌, ◌≡◌, refl, ap, ◌∙◌, true, false, [], ◌∷◌, ◌++◌, none, some, Text,
  JsMap, map_get, map_delete, ===_refl, map_set_absent, length, drop, length-append, Distinct,
  Distinct-map_delete, Distinct-map_set, arith, map_get-append, map_get-map_delete,
}
use hacienda.Morpheus.State.{nat, num_lt, num_le, Entry, Morpheus}
use hacienda.Morpheus.Cache.{prune_cache, start_prefetch, prefetch, take_prefetch}
use hacienda.Morpheus.Cache.Prune.{live, map_get-live, prune_cache-drop}
use hacienda.Morpheus.Cache.Bounds.{IsValid}

live-append : (now : ℕ) (c d : JsMap Entry) → live now (c ++ d) ≡ live now c ++ live now d
live-append now [] d = refl
live-append now (e ∷ c) d = ground (arith, live-append now c d)

-- The last entry survives the deletion of fewer entries than stand before it.
map_get-drop :
    (k : Text) (e : Entry) (n : ℕ) (c : JsMap Entry)
    → map_get k c ≡ none
    → n ≤ length c
    → map_get k (drop n (c ++ (k, e) ∷ [])) ≡ some e
unfolding map_get
map_get-drop k e zero c h l = rw (map_get-append k c ((k, e) ∷ []), h, ===_refl k)
map_get-drop k e (suc n) [] h l = absurd (omega arith)
map_get-drop k e (suc n) ((j, w) ∷ c) h l = ground (arith, map_get-drop k e n c)

map_get-prune_cache :
    (k : Text) (e : Entry) (now n : ℕ) (c : JsMap Entry)
    → Distinct (c ++ (k, e) ∷ [])
    → map_get k c ≡ none
    → num_le e.expires_at (nat now) ≡ false
    → map_get k (prune_cache now (nat (suc n)) (c ++ (k, e) ∷ [])) ≡ some e
map_get-prune_cache k e now n c d h fresh =
    let kept : live now ((k, e) ∷ []) ≡ (k, e) ∷ [] = ground arith in
    rw (prune_cache-drop now (suc n) (c ++ (k, e) ∷ []) d, live-append now c ((k, e) ∷ []), kept)
      (map_get-drop k e _ (live now c) (map_get-live now k c h)
        (omega (arith, length-append (live now c) ((k, e) ∷ []))))

-- The cache after a prefetch holds the new entry.
pub map_get-start_prefetch :
    (key : Text) (now size ttl : ℕ) (m : Morpheus)
    → IsValid m
    → m.cache_size ≡ nat (suc size)
    → m.cache_ttl ≡ nat (suc ttl)
    → map_get key (start_prefetch key now m).0.cache
      ≡ some (record { promise = m.next_request; expires_at = nat (now + suc ttl) })
unfolding start_prefetch
map_get-start_prefetch key now size ttl m v s t =
    let c = map_delete key m.cache in
    let e : Entry = record { promise = m.next_request; expires_at = nat (now + suc ttl) } in
    let gone : map_get key c ≡ none = rw (map_get-map_delete key key m.cache, ===_refl key) in
    let last = map_set_absent key e c gone in
    let d = rw last at (Distinct-map_set key e c (Distinct-map_delete key m.cache v.distinct)) in
    rw (s, t, last) (map_get-prune_cache key e now size c d gone (ground arith))

prefetch-absent :
    (key : Text) (now : ℕ) (m : Morpheus)
    → map_get key m.cache ≡ none
    → prefetch key now m ≡ start_prefetch key now m
unfolding prefetch
prefetch-absent key now m h = rw (h, prefetch)

prefetch-fresh :
    (key : Text) (now : ℕ) (m : Morpheus) (e : Entry)
    → map_get key m.cache ≡ some e
    → num_lt (nat now) e.expires_at ≡ true
    → prefetch key now m ≡ (m, e.promise)
unfolding prefetch
prefetch-fresh key now m e h fresh = rw (h, prefetch) (rw fresh)

take_prefetch-fresh :
    (key : Text) (now : ℕ) (m : Morpheus) (e : Entry)
    → map_get key m.cache ≡ some e
    → num_le e.expires_at (nat now) ≡ false
    → take_prefetch key now m ≡ (record m { cache = map_delete key m.cache }, some e.promise)
unfolding take_prefetch
take_prefetch-fresh key now m e h fresh = rw (h, take_prefetch) (rw fresh)

take_prefetch-absent :
    (key : Text) (now : ℕ) (m : Morpheus)
    → map_get key m.cache ≡ none
    → take_prefetch key now m ≡ (m, none)
unfolding take_prefetch
take_prefetch-absent key now m h = rw (h, take_prefetch)

module _ (key : Text) (now later size ttl : ℕ) (m : Morpheus) (v : IsValid m)
    (absent : map_get key m.cache ≡ none) (sized : m.cache_size ≡ nat (suc size))
    (lasting : m.cache_ttl ≡ nat (suc ttl)) (in_time : later < now + suc ttl) where
  -- A second prefetch of the same page within the time to live starts no second request: it
  -- returns the promise of the first and changes nothing.
  pub prefetch-prefetch : prefetch key later (prefetch key now m).0 ≡ prefetch key now m
  prefetch-prefetch = rw (prefetch-absent key now m absent) (
      prefetch-fresh key later (start_prefetch key now m).0 _
        (map_get-start_prefetch key now size ttl m v sized lasting) (ground arith)
      ∙ started)
    where
      started : ((start_prefetch key now m).0, m.next_request) ≡ start_prefetch key now m
      started = unfold start_prefetch in refl

  -- A navigation within the time to live is given the promise of the prefetch, and gives it up:
  -- a second navigation is given none.
  pub take_prefetch-prefetch :
      ((take_prefetch key later (prefetch key now m).0).1 ≡ some m.next_request)
      × ((take_prefetch key later (take_prefetch key later (prefetch key now m).0).0).1 ≡ none)
  take_prefetch-prefetch =
      let m' = (start_prefetch key now m).0 in
      let taken =
        take_prefetch-fresh key later m' _
          (map_get-start_prefetch key now size ttl m v sized lasting) (ground arith) in
      rw (prefetch-absent key now m absent, taken)
        (
          refl,
          ap (λ r. r.1)
              (take_prefetch-absent key later (record m' { cache = map_delete key m'.cache })
                (rw (map_get-map_delete key key m'.cache, ===_refl key))),
        )
