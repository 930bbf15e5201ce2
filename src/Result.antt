-- ===== src/Result.antt =====
-- Results of code that may raise, and postconditions on them.
mod Defs
mod Rules
pub use Defs.*
pub use Rules.*
