-- ===== src/Jexpr.antt =====
-- lib/lunula/assets/jexpr.js: the expressions of Helium's attributes, without `eval`.
pub mod Chars
pub mod Token
pub mod Tokenizer
pub mod Syntax
pub mod Parser
pub mod Parse
pub mod Ids
pub mod Values
pub mod Evaluate
mod Tests
