-- ===== src/Morpheus/Cache/Bounds.antt =====
-- The invariant of the prefetch cache, and that every operation on it keeps it
-- (packages/morpheus/src/morpheus.js).
use hacienda.Prelude.{
  ℕ, zero, suc, ◌-◌, ◌≤◌, ◌<◌, ◌≡◌, refl, [], ◌∷◌, Option, none, some, Text, JsMap, map_get,
  map_set, map_delete, length, drop, length-drop, length-map_delete, All, Distinct,
  Distinct-map_delete, Distinct-map_set, arith, Bool-cases, Option-cases, inl, inr,
}
use hacienda.Morpheus.State.{
  JsNumber, nat, nan, num_lt, num_plus, Page, page_cacheable, Entry, Morpheus, Options,
  constructor_of,
}
use hacienda.Morpheus.Cache.{
  shrink, prune_cache, start_prefetch, prefetch, settle_prefetch, take_prefetch, clear_cache,
}
use hacienda.Morpheus.Cache.Prune.{live, Distinct-live, delete_expired-live, prune_cache-drop}

-- `size <= limit`, where a limit that is not a number bounds nothing.
abbrev pub InLimit : JsNumber → JsMap Entry → Type 0
InLimit (nat n) c = length c ≤ n
InLimit nan c = Unit

-- The promises in the cache are those of requests that were started.
abbrev pub Requested : ℕ → JsMap Entry → Type 0
Requested next = All (λ e. e.1.promise < next)

pub record IsValid (m : Morpheus) : Type 0 where
  pub distinct : Distinct m.cache
  pub in_limit : InLimit m.cache_size m.cache
  pub requested : Requested m.next_request m.cache

Distinct-drop : (n : ℕ) (c : JsMap Entry) → Distinct c → Distinct (drop n c)
Distinct-drop zero c d = d
Distinct-drop (suc n) [] d = tt
Distinct-drop (suc n) (e ∷ c) d = Distinct-drop n c d.1

Requested-drop : (next n : ℕ) (c : JsMap Entry) → Requested next c → Requested next (drop n c)
Requested-drop next zero c d = d
Requested-drop next (suc n) [] d = tt
Requested-drop next (suc n) (e ∷ c) d = Requested-drop next n c d.1

Requested-live : (next now : ℕ) (c : JsMap Entry) → Requested next c → Requested next (live now c)
Requested-live next now [] d = tt
Requested-live next now (e ∷ c) d = ground (arith, Requested-live next now c)

Requested-map_delete :
    (next : ℕ) (k : Text) (c : JsMap Entry) → Requested next c → Requested next (map_delete k c)
unfolding map_delete
Requested-map_delete next k [] d = tt
Requested-map_delete next k ((j, e) ∷ c) d = ground (arith, Requested-map_delete next k c)

pub Requested-suc : (next : ℕ) (c : JsMap Entry) → Requested next c → Requested (suc next) c
Requested-suc next [] r = tt
Requested-suc next (e ∷ c) r = (omega arith, Requested-suc next c r.1)

Requested-map_set :
    (next : ℕ) (k : Text) (e : Entry) (c : JsMap Entry)
    → e.promise < suc next
    → Requested next c
    → Requested (suc next) (map_set k e c)
unfolding map_set
Requested-map_set next k e [] h d = (h, tt)
Requested-map_set next k e ((j, w) ∷ c) h d =
    ground (arith, Requested-map_set next k e c h, Requested-suc next c)

shrink-nan : (fuel : ℕ) (c : JsMap Entry) → shrink fuel nan c ≡ c
unfolding shrink
shrink-nan zero c = refl
shrink-nan (suc fuel) c = refl

prune_cache-nan : (now : ℕ) (c : JsMap Entry) → Distinct c → prune_cache now nan c ≡ live now c
unfolding prune_cache
prune_cache-nan now c d = rw (shrink-nan, delete_expired-live now c d)

pub prune_cache-InLimit :
    (now : ℕ) (limit : JsNumber) (c : JsMap Entry)
    → Distinct c
    → InLimit limit (prune_cache now limit c)
prune_cache-InLimit now (nat n) c d =
    rw (prune_cache-drop now n c d)
      (omega (arith, length-drop (length (live now c) - n) (live now c)))
prune_cache-InLimit now nan c d = tt

-- What holds of a cache and of each of its tails holds of the pruned cache.
prune_cache-Distinct :
    (now : ℕ) (limit : JsNumber) (c : JsMap Entry) → Distinct c → Distinct (prune_cache now limit c)
prune_cache-Distinct now (nat n) c d =
    rw (prune_cache-drop now n c d) (Distinct-drop _ (live now c) (Distinct-live now c d))
prune_cache-Distinct now nan c d = rw (prune_cache-nan now c d) (Distinct-live now c d)

prune_cache-Requested :
    (next now : ℕ) (limit : JsNumber) (c : JsMap Entry)
    → Distinct c
    → Requested next c
    → Requested next (prune_cache now limit c)
prune_cache-Requested next now (nat n) c d r =
    rw (prune_cache-drop now n c d)
      (Requested-drop next _ (live now c) (Requested-live next now c r))
prune_cache-Requested next now nan c d r =
    rw (prune_cache-nan now c d) (Requested-live next now c r)

InLimit-map_delete :
    (limit : JsNumber) (k : Text) (c : JsMap Entry)
    → InLimit limit c
    → InLimit limit (map_delete k c)
InLimit-map_delete (nat n) k c h = omega (arith, length-map_delete k c)
InLimit-map_delete nan k c h = tt

delete-IsValid :
    (k : Text) (m : Morpheus) → IsValid m → IsValid (record m { cache = map_delete k m.cache })
delete-IsValid k m v = record {
  distinct = Distinct-map_delete k m.cache v.distinct;
  in_limit = InLimit-map_delete m.cache_size k m.cache v.in_limit;
  requested = Requested-map_delete m.next_request k m.cache v.requested;
}

start_prefetch-IsValid :
    (key : Text) (now : ℕ) (m : Morpheus) → IsValid m → IsValid (start_prefetch key now m).0
unfolding start_prefetch
start_prefetch-IsValid key now m v =
    let entry : Entry = record {
      promise = m.next_request;
      expires_at = num_plus now m.cache_ttl;
    } in
    let cache = map_set key entry (map_delete key m.cache) in
    let d =
      Distinct-map_set key entry (map_delete key m.cache)
        (Distinct-map_delete key m.cache v.distinct) in
    record {
      distinct = prune_cache-Distinct now m.cache_size cache d;
      in_limit = prune_cache-InLimit now m.cache_size cache d;
      requested = prune_cache-Requested (suc m.next_request) now m.cache_size cache d (
          Requested-map_set m.next_request key entry (map_delete key m.cache) (omega arith)
            (Requested-map_delete m.next_request key m.cache v.requested));
    }

pub prefetch-IsValid :
    (key : Text) (now : ℕ) (m : Morpheus) → IsValid m → IsValid (prefetch key now m).0
unfolding prefetch
prefetch-IsValid key now m v = elim (Option-cases (map_get key m.cache)) [
  | inl absent ↦ rw (absent, prefetch) (start_prefetch-IsValid key now m v)
  | inr (e, found) ↦
      rw (found, prefetch)
        (elim (Bool-cases (num_lt (nat now) e.expires_at)) [
          | inl fresh ↦ rw fresh v
          | inr stale ↦ rw stale (start_prefetch-IsValid key now m v)
        ])
]

pub settle_prefetch-IsValid {ℓ} :
    {N : Type ℓ} (key : Text) (outcome : Option (Page N)) (m : Morpheus)
    → IsValid m
    → IsValid (settle_prefetch key outcome m).0
unfolding settle_prefetch
settle_prefetch-IsValid key none m v = delete-IsValid key m v
settle_prefetch-IsValid key (some page) m v = elim (Bool-cases (page_cacheable page)) [
  | inl stored ↦ rw stored v
  | inr dropped ↦ rw dropped (delete-IsValid key m v)
]

pub take_prefetch-IsValid :
    (key : Text) (now : ℕ) (m : Morpheus) → IsValid m → IsValid (take_prefetch key now m).0
unfolding take_prefetch
take_prefetch-IsValid key now m v = elim (Option-cases (map_get key m.cache)) [
  | inl absent ↦ rw (absent, take_prefetch) v
  | inr (e, found) ↦ rw (found, take_prefetch) (delete-IsValid key m v)
]

InLimit-nil : (limit : JsNumber) → InLimit limit []
InLimit-nil (nat n) = omega arith
InLimit-nil nan = tt

pub clear_cache-IsValid : (m : Morpheus) → IsValid m → IsValid (clear_cache m)
unfolding clear_cache
clear_cache-IsValid m v = record {
  distinct = tt;
  in_limit = InLimit-nil m.cache_size;
  requested = tt;
}

-- The constructor's cache is empty, whatever the options are.
pub constructor_of-IsValid :
    (to_number : Text → JsNumber) (o : Options) → IsValid (constructor_of to_number o)
unfolding constructor_of
constructor_of-IsValid to_number o = record {
  distinct = tt;
  in_limit = InLimit-nil _;
  requested = tt;
}
