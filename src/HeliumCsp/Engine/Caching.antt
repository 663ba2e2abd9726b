-- ===== src/HeliumCsp/Engine/Caching.antt =====
-- The cache of `jexprEngine.compile` in lib/lunula/assets/helium-csp.js.
use hacienda.Prelude.{
  ℕ, ◌≡◌, refl, ap, sym, ◌∙◌, Bool, true, false, Option, none, some, [], ◌∷◌, Text, ◌===◌, ◌⊎◌,
  ===_sound, drop, if◌then◌else◌, JsMap, map_get, map_set, map_get-map_set, inl, inr, arith,
}
use hacienda.Jexpr.Parse.{parse}
use hacienda.HeliumCsp.Strings.{trim}
use hacienda.HeliumCsp.Preprocess.{preprocess}
use hacienda.HeliumCsp.Engine.{Compiled, cache_key, compiled, compile, store}

-- Each entry is what its expression compiles to.
pub IsFaithful : ℕ → JsMap Compiled → Type 0
IsFaithful fuel cache =
    (with_return : Bool) (processed : Text) (c : Compiled)
    → map_get (cache_key with_return processed) cache ≡ some c
    → compiled (parse fuel processed) ≡ some c

-- So is the empty cache.
pub IsFaithful-nil : (fuel : ℕ) → IsFaithful fuel []
unfolding IsFaithful map_get
IsFaithful-nil fuel with_return processed c h = absurd (none_is_some h)
  where
    none_is_some : ◌≡◌ {A = Option Compiled} none (some c) → ⊥
    none_is_some = cc

-- The key tells the expression.
first_code : Text → ℕ
first_code [] = 0
first_code (c ∷ s) = c

cache_key_injective : (a b : Bool) (s t : Text) → cache_key a s ≡ cache_key b t → s ≡ t
unfolding first_code
cache_key_injective true true s t e = ap (drop 5) e
cache_key_injective false false s t e = ap (drop 6) e
cache_key_injective true false s t e =
    let wrong : 116 ≡ 102 = ap first_code e in absurd (omega (arith, wrong))
cache_key_injective false true s t e =
    let wrong : 102 ≡ 116 = ap first_code e in absurd (omega (arith, wrong))

if-some :
    (b : Bool) (c d : Compiled) (o : Option Compiled)
    → (if b then some c else o) ≡ some d
    → ((b ≡ true) × (some c ≡ some d)) ⊎ (o ≡ some d)
if-some true c d o h = inl (refl, h)
if-some false c d o h = inr h

IsFaithful-map_set :
    (fuel : ℕ) (cache : JsMap Compiled) (with_return : Bool) (processed : Text) (c : Compiled)
    → IsFaithful fuel cache
    → compiled (parse fuel processed) ≡ some c
    → IsFaithful fuel (map_set (cache_key with_return processed) c cache)
unfolding IsFaithful
IsFaithful-map_set fuel cache with_return processed c f e b s d h =
    let key = cache_key with_return processed in
    let found = sym (map_get-map_set key (cache_key b s) c cache) ∙ h in
    elim (if-some (key === cache_key b s) c d (map_get (cache_key b s) cache) found) [
      | inl (same, c_is_d) ↦
          let t : s ≡ processed =
            sym (
              cache_key_injective with_return b processed s (===_sound key (cache_key b s) same)) in
          rw t (e ∙ c_is_d)
      | inr older ↦ f b s d older
    ]

store-IsFaithful :
    (fuel : ℕ) (cache : JsMap Compiled) (with_return : Bool) (processed : Text)
    (o : Option Compiled)
    → IsFaithful fuel cache
    → compiled (parse fuel processed) ≡ o
    → (c : Compiled) (cache' : JsMap Compiled)
    → store (cache_key with_return processed) cache o ≡ some (c, cache')
    → IsFaithful fuel cache'
store-IsFaithful fuel cache with_return processed none f e c cache' h = absurd (none_is_some h)
  where
    none_is_some : ◌≡◌ {A = Option (Compiled × JsMap Compiled)} none (some (c, cache')) → ⊥
    none_is_some = cc
store-IsFaithful fuel cache with_return processed (some d) f e c cache' h =
    let same : map_set (cache_key with_return processed) d cache ≡ cache' = cc in
    rw (sym same) (IsFaithful-map_set fuel cache with_return processed d f e)

-- What `compile` returns, without the cache.
abbrev pub result_of : Option (Compiled × JsMap Compiled) → Option Compiled
result_of none = none
result_of (some (c, cache)) = some c

result_of-store :
    (key : Text) (cache : JsMap Compiled) (o : Option Compiled) → result_of (store key cache o) ≡ o
result_of-store key cache none = refl
result_of-store key cache (some c) = refl

snd_of-some :
    {c d : Compiled} {cache cache' : JsMap Compiled}
    → ◌≡◌ {A = Option (Compiled × JsMap Compiled)} (some (d, cache)) (some (c, cache'))
    → cache ≡ cache'
snd_of-some h = cc

compile_hit :
    (fuel : ℕ) (expr : Text) (with_return : Bool) (cache : JsMap Compiled) (c : Compiled)
    → map_get (cache_key with_return (preprocess (trim expr))) cache ≡ some c
    → compile fuel expr with_return cache ≡ some (c, cache)
unfolding compile
compile_hit fuel expr with_return cache c e = rw (compile, e) refl

compile_miss :
    (fuel : ℕ) (expr : Text) (with_return : Bool) (cache : JsMap Compiled)
    → map_get (cache_key with_return (preprocess (trim expr))) cache ≡ none
    → compile fuel expr with_return cache
      ≡ store
          (cache_key with_return (preprocess (trim expr)))
          cache
          (compiled (parse fuel (preprocess (trim expr))))
unfolding compile
compile_miss fuel expr with_return cache e = rw (compile, e) refl

-- With any faithful cache, `compile` returns what it returns without one: the parse of the
-- preprocessed expression, or what stands for an expression that does not parse. It returns exactly
-- if the parser does, and the cache behind it is faithful again.
pub compile-compiled :
    (fuel : ℕ) (expr : Text) (with_return : Bool) (cache : JsMap Compiled)
    → IsFaithful fuel cache
    → (result_of (compile fuel expr with_return cache)
        ≡ compiled (parse fuel (preprocess (trim expr))))
      × ((c : Compiled) (cache' : JsMap Compiled)
          → compile fuel expr with_return cache ≡ some (c, cache')
          → IsFaithful fuel cache')
unfolding IsFaithful
compile-compiled fuel expr with_return cache f =
    by_entry (map_get (cache_key with_return (preprocess (trim expr))) cache) refl
  where
    by_entry :
        (o : Option Compiled)
        → map_get (cache_key with_return (preprocess (trim expr))) cache ≡ o
        → (result_of (compile fuel expr with_return cache)
            ≡ compiled (parse fuel (preprocess (trim expr))))
          × ((c : Compiled) (cache' : JsMap Compiled)
              → compile fuel expr with_return cache ≡ some (c, cache')
              → IsFaithful fuel cache')
    by_entry none e =
        let miss = compile_miss fuel expr with_return cache e in
        (
          ap result_of miss ∙ result_of-store _ _ _,
          λ c cache' h.
              store-IsFaithful fuel cache with_return (preprocess (trim expr)) _ f refl c cache'
                (sym miss ∙ h),
        )
    by_entry (some d) e =
        let hit = compile_hit fuel expr with_return cache d e in
        (
          ap result_of hit ∙ sym (f with_return _ d e),
          λ c cache' h. let same : cache ≡ cache' = snd_of-some (sym hit ∙ h) in rw (sym same) f,
        )
