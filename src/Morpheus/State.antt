-- ===== src/Morpheus/State.antt =====
-- The fields of the class `Morpheus` (packages/morpheus/src/morpheus.js), its constructor, and the
-- numbers and promises that they hold. A node of the document is a parameter, `N`.
use hacienda.Prelude.{
  ℕ, zero, suc, ◌+◌, ◌*◌, Bool, false, Option, none, [], Text, codes, JsMap, ltb, leb,
}

-- A JavaScript number that the class computes with: a natural number, or NaN.
pub data JsNumber : Type 0 where
  nat : ℕ → JsNumber
  nan : JsNumber

-- Every comparison with NaN is false.
abbrev pub num_lt : JsNumber → JsNumber → Bool
num_lt (nat a) (nat b) = ltb a b
num_lt _ _ = false

abbrev pub num_le : JsNumber → JsNumber → Bool
num_le (nat a) (nat b) = leb a b
num_le _ _ = false

abbrev pub num_times : JsNumber → ℕ → JsNumber
num_times (nat a) k = nat (a * k)
num_times nan k = nan

abbrev pub num_plus : ℕ → JsNumber → JsNumber
num_plus k (nat a) = nat (k + a)
num_plus k nan = nan

-- An option as the caller passes it: absent, a number, or the text of a `data-` attribute.
pub data OptionValue : Type 0 where
  undefined : OptionValue
  number : ℕ → OptionValue
  text : Text → OptionValue

-- `Number(value || fallback)`; `to_number` is JavaScript's `Number` on texts. The empty text and
-- the number 0 are falsy, the text "0" is not.
unfoldable pub number_or : (Text → JsNumber) → OptionValue → ℕ → JsNumber
number_or to_number undefined d = nat d
number_or to_number (number zero) d = nat d
number_or to_number (number (suc n)) d = nat (suc n)
number_or to_number (text []) d = nat d
number_or to_number (text s) d = to_number s

-- `options.prefetch`: absent, `false`, or the name of a mode.
pub data PrefetchOption : Type 0 where
  unset off : PrefetchOption
  mode : Text → PrefetchOption

-- `this.prefetchMode`: `false`, or the name of a mode.
pub data PrefetchMode : Type 0 where
  disabled : PrefetchMode
  enabled : Text → PrefetchMode

unfoldable pub prefetch_mode_of : PrefetchOption → PrefetchMode
prefetch_mode_of unset = enabled (codes "intent")
prefetch_mode_of off = disabled
prefetch_mode_of (mode []) = enabled (codes "intent")
prefetch_mode_of (mode s) = enabled s

pub record Options : Type 0 where
  pub target : Text
  pub prefetch : PrefetchOption
  pub cache_size : OptionValue
  pub cache_ttl : OptionValue

-- What `fetchPage` returns: a response that asks for a reload, or a page to morph to.
pub data Page {ℓ} (N : Type ℓ) : Type ℓ where
  reload : Text → Page N
  html : Text → N → Text → Bool → Page N

module _ {ℓ} {N : Type ℓ} where
  abbrev pub page_url : Page N → Text
  page_url (reload url) = url
  page_url (html url target title cacheable) = url

  -- `page.cacheable`, which a reload page lacks.
  abbrev pub page_cacheable : Page N → Bool
  page_cacheable (reload url) = false
  page_cacheable (html url target title cacheable) = cacheable

-- A promise is the number of the request that it stands for.
pub record Entry : Type 0 where
  pub promise : ℕ
  pub expires_at : JsNumber

pub record Morpheus : Type 0 where
  pub target_selector : Text
  pub prefetch_mode : PrefetchMode
  pub cache_size : JsNumber
  pub cache_ttl : JsNumber
  pub cache : JsMap Entry
  pub sequence : ℕ
  pub controller : Option ℕ
  pub started : Bool
  -- The number of the next request that `fetch` starts.
  pub next_request : ℕ

unfoldable pub constructor_of : (Text → JsNumber) → Options → Morpheus
unfolding number_or prefetch_mode_of
constructor_of to_number o = record {
  target_selector = elim o.target [ [] ↦ codes "#morpheus-page" | _ ↦ o.target ];
  prefetch_mode = prefetch_mode_of o.prefetch;
  cache_size = number_or to_number o.cache_size 20;
  cache_ttl = num_times (number_or to_number o.cache_ttl 15) 1000;
  cache = [];
  sequence = 0;
  controller = none;
  started = false;
  next_request = 0;
}
