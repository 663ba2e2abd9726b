-- ===== src/HeliumCsp/Engine.antt =====
-- `jexprEngine.compile` of lib/lunula/assets/helium-csp.js.
pub mod Caching
use hacienda.Prelude.{
  ℕ, Bool, true, false, Option, none, some, ◌++◌, Text, codes, ◌===◌, if◌then◌else◌, JsMap, map_get,
  map_set,
}
use hacienda.Jexpr.Token.{Result, ok, throws, out_of_fuel}
use hacienda.Jexpr.Syntax.{Expr}
use hacienda.Jexpr.Parse.{parse}
use hacienda.HeliumCsp.Strings.{trim}
use hacienda.HeliumCsp.Preprocess.{preprocess}

-- What is compiled: a syntax tree, or what stands for an expression that does not parse.
pub data Compiled : Type 0 where
  program : Expr → Compiled
  failed : Compiled

abbrev pub truth : Bool → Text
truth true = codes "true"
truth false = codes "false"

-- `${withReturn}:${processed}`.
abbrev pub cache_key : Bool → Text → Text
cache_key with_return processed = truth with_return ++ codes ":" ++ processed

-- The `try` and the `catch`; nothing if the parser does not return within the fuel.
unfoldable pub compiled : Result Expr → Option Compiled
compiled (ok ast) = some (program ast)
compiled (throws e) = some failed
compiled out_of_fuel = none

-- `cache.set(cacheKey, compiled)`.
abbrev pub store : Text → JsMap Compiled → Option Compiled → Option (Compiled × JsMap Compiled)
store key cache none = none
store key cache (some c) = some (c, map_set key c cache)

-- The result and the cache behind it.
unfoldable pub compile : ℕ → Text → Bool → JsMap Compiled → Option (Compiled × JsMap Compiled)
compile fuel expr with_return cache =
    let processed = preprocess (trim expr) in
    let key = cache_key with_return processed in
    elim (map_get key cache) [
      | some c ↦ some (c, cache)
      | none ↦ store key cache (compiled (parse fuel processed))
    ]
