-- ===== src/Morpheus/Cache/Prune.antt =====
-- What `pruneCache` keeps (packages/morpheus/src/morpheus.js).
use hacienda.Prelude.{
  ℕ, zero, suc, ◌-◌, ◌≤◌, ◌≡◌, refl, sym, Bool, not, [], ◌∷◌, ◌++◌, none, Text, JsMap, map_get,
  append_assoc, length, drop, keep_if, Distinct, map_delete-append, arith, Bool-cases, ltb,
  map_get-append, inl, inr,
}
use hacienda.Morpheus.State.{nat, num_le, Entry}
use hacienda.Morpheus.Cache.{delete_expired, delete_first, shrink, prune_cache}

-- An entry that has not yet expired.
abbrev pub is_live : ℕ → Text × Entry → Bool
is_live now e = not (num_le e.1.expires_at (nat now))

abbrev pub live : ℕ → JsMap Entry → JsMap Entry
live now = keep_if (is_live now)

pub map_get-live :
    (now : ℕ) (k : Text) (c : JsMap Entry) → map_get k c ≡ none → map_get k (live now c) ≡ none
unfolding map_get
map_get-live now k [] h = refl
map_get-live now k ((j, e) ∷ c) h = ground (arith, map_get-live now k c)

pub Distinct-live : (now : ℕ) (c : JsMap Entry) → Distinct c → Distinct (live now c)
Distinct-live now [] d = tt
Distinct-live now ((k, e) ∷ c) d = elim (Bool-cases (is_live now (k, e))) [
  | inl kept ↦ rw kept (map_get-live now k c d.0, Distinct-live now c d.1)
  | inr gone ↦ rw gone (Distinct-live now c d.1)
]

pub Distinct-append-cons :
    (before rest : JsMap Entry) (k : Text) (e : Entry)
    → Distinct (before ++ (k, e) ∷ rest)
    → Distinct (before ++ rest)
unfolding map_get
Distinct-append-cons [] rest k e d = d.1
Distinct-append-cons ((j, w) ∷ before) rest k e d = ground (
  arith,
  Distinct-append-cons before rest k e,
  map_get-append j before rest,
  map_get-append j before ((k, e) ∷ rest),
)

delete_expired-append :
    (now : ℕ) (before rest : JsMap Entry)
    → Distinct (before ++ rest)
    → delete_expired now rest (before ++ rest) ≡ before ++ live now rest
unfolding delete_expired
delete_expired-append now before [] d = refl
delete_expired-append now before ((k, e) ∷ rest) d =
    elim (Bool-cases (num_le e.expires_at (nat now))) [
      | inl gone ↦
          rw (gone, map_delete-append k e before rest d)
            (delete_expired-append now before rest (Distinct-append-cons before rest k e d))
      | inr kept ↦
          rw
            (
              kept,
              ← append_assoc before ((k, e) ∷ []) rest,
              ← append_assoc before ((k, e) ∷ []) (live now rest),
            )
            (delete_expired-append now (before ++ (k, e) ∷ []) rest (rw append_assoc d))
    ]

pub delete_expired-live :
    (now : ℕ) (c : JsMap Entry) → Distinct c → delete_expired now c c ≡ live now c
delete_expired-live now c d = delete_expired-append now [] c d

delete_first-cons :
    (e : Text × Entry) (c : JsMap Entry) → Distinct (e ∷ c) → delete_first (e ∷ c) ≡ c
unfolding delete_first
delete_first-cons (k, e) c d = map_delete-append k e [] c d

drop-nil : (n : ℕ) → drop {A = Text × Entry} n [] ≡ []
drop-nil zero = refl
drop-nil (suc n) = refl

pub shrink-drop :
    (fuel limit : ℕ) (c : JsMap Entry)
    → Distinct c
    → length c ≤ fuel
    → shrink fuel (nat limit) c ≡ drop (length c - limit) c
unfolding shrink
shrink-drop zero limit [] d h = sym (drop-nil (0 - limit))
shrink-drop (suc fuel) limit [] d h = ground (arith, drop-nil (0 - limit))
shrink-drop zero limit (e ∷ c) d h = absurd (omega arith)
shrink-drop (suc fuel) limit (e ∷ c) d h = elim (Bool-cases (ltb limit (suc (length c)))) [
  | inl over ↦
      let n : suc (length c) - limit ≡ suc (length c - limit) = ground arith in
      rw (over, n, delete_first-cons e c d) (shrink-drop fuel limit c d.1 (omega arith))
  | inr fits ↦ let n : suc (length c) - limit ≡ 0 = ground arith in rw (fits, n)
]

-- With distinct keys `prune_cache` deletes the expired entries, and of the others the oldest, as
-- many as stand above the limit; the order of what stays is unchanged.
pub prune_cache-drop :
    (now limit : ℕ) (c : JsMap Entry)
    → Distinct c
    → prune_cache now (nat limit) c ≡ drop (length (live now c) - limit) (live now c)
unfolding prune_cache
prune_cache-drop now limit c d =
    rw (delete_expired-live now c d)
      (shrink-drop (length (live now c)) limit (live now c) (Distinct-live now c d) (omega arith))
