-- ===== src/Lib.antt =====
-- The browser runtime of Lunula: the JavaScript that it serves to pages.
--
-- `Prelude` holds the shared notation: Boolean tests, texts as lists of UTF-16 code units, and a
-- JavaScript `Map` as a list of entries in the order of insertion.
--
-- `Morpheus` is packages/morpheus/src/morpheus.js (copied to lib/lunula/assets/morpheus.js): page
-- navigation that fetches a page, morphs the current one into it, and prefetches what a pointer
-- comes near.
--   Morpheus/State: the fields of the class and its constructor.
--   Morpheus/Cache: prefetch, its settlement, takePrefetch, pruneCache, clearCache.
--   Morpheus/Links: handleClick, handlePrefetchIntent and the tests that they make.
--   Morpheus/Fetch: fetchPage, from the response on.
--   Morpheus/Listening: start and stop, with the listeners of the page.
--   Morpheus/Morphing: heliumAttributesChanged and morph, with what Idiomorph is told of each node.
--   Morpheus/View: anchorFor, restoreScroll, manageFocus, the test of updateActiveLinks.
--   Morpheus/Navigation: navigate, one function for the code between two awaits.
--   Morpheus/Schedule: the events that the browser delivers, in any order, as a step function.
-- A `World` holds the object, the URL of the page, the attribute that marks it as loading, the
-- navigations that wait, and the trace of what was done. Listeners of the events that Morpheus
-- dispatches may cancel them, and do not call the object again. `URL`, `DOMParser`, the document's
-- queries and Idiomorph are arguments. Times and sizes are natural numbers, or NaN.
--
-- `Jexpr` is lib/lunula/assets/jexpr.js: the expressions of Helium's attributes.
--   Jexpr/Chars, Jexpr/Token, Jexpr/Tokenizer: the characters, the tokens and the class Tokenizer,
--   with its index and its start of the token. A loop takes as much fuel as the input has characters
--   and one more.
--   Jexpr/Syntax, Jexpr/Parser, Jexpr/Parse: the nodes and the class Parser, over any source of
--   tokens. The methods call one another, on fuel; `out_of_fuel` is no outcome of the program.
--   Numbers are kept as they are written, and a map keeps its keys in the order of their entries.
--   Jexpr/Ids: getIds of the nodes, and what `compile` reports of it.
--   Jexpr/Values, Jexpr/Evaluate: evaluate of the nodes. The JavaScript engine is a record of
--   operations, which may call functions of the program. Evaluation is structural; the calls of arrow
--   functions within each other are bounded by fuel, and `running` says that it was too little.
--   Jexpr/Evaluate/Rules: the same as rules, one for each way that an expression can end normally.
--
-- `Helium` is lib/lunula/assets/helium.js: the reactive runtime.
--   Helium/Changes: the traps of the state. The search of the keys above an object takes a round for
--   each object that it can meet, and two more.
--   Helium/Bindings: updateBindingDependencies, over bindings with numbers.
--   Helium/Tracking: executeBinding, over the reads of an expression.
--   Helium/Apply: applyBinding, with the classes and the style that it sets.
--   Helium/Scopes: the element scopes, the overlay of createScope, and setStateValue.
--   Helium/Rows: renderFor and renderIf. The children of the template's parent are a list of numbers.
--   Helium/Cleanup: cleanup, over the tables of HELIUM.
--   Helium/Directives, Helium/Events: what an attribute asks for by its name, and the handlers of
--   event attributes.
--   Helium/Requests, Helium/Updates: the request of ajax, its answer, and update.
--   Helium/Lifecycle: the runs of helium and heliumTeardown, as a step relation.
--   Helium/Startup: the default instance and its automatic start, with the calls of HeliumCsp/Startup.
-- The page, `fetch`, the texts of values and the engine of the expressions are arguments; so are, for
-- the scopes, what prototypes give and the bindings that a write runs at once.
--
-- `HeliumCsp` is lib/lunula/assets/helium-csp.js: Helium with jexpr in place of `eval`.
--   HeliumCsp/Strings: what it uses of JavaScript's strings.
--   HeliumCsp/Templates, HeliumCsp/Commas, HeliumCsp/Segments, HeliumCsp/Lowering and
--   HeliumCsp/Preprocess: preprocess and its passes. The text that is left stands for the index, so
--   the loops are structural; the replacements take the length of the text as fuel.
--   HeliumCsp/Engine: compile and its cache, over the parser with its fuel.
--   HeliumCsp/Scope: allowGlobals and createScope with its two traps, over any values. What
--   assigning `__proto__` makes of the prototype and the bindings that the state runs are arguments.
--   HeliumCsp/Startup: the automatic start, as a step function over the page's events.
--
-- `HeliumSse` is lib/lunula/assets/helium-sse.js: server-sent events.
--   HeliumSse/Events: processEvents and its callers; the events of a buffer take its length as fuel.
--   HeliumSse/Data: the data of an event.
--
-- The modules named Tests run the definitions on concrete inputs, and apply the theorems to some.
--
-- Not modelled: Idiomorph, which is another project's; of helium.js, the proxies nested in a scope,
-- parseFor, `@import`, the storage and the timers; the timer of helium-sse.js; of Morpheus,
-- rememberScroll and the timer of the pointer; the Ruby framework.
pub mod Prelude
pub mod Morpheus
pub mod Jexpr
pub mod Helium
pub mod HeliumCsp
pub mod HeliumSse
