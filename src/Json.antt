-- ===== src/Json.antt =====
-- The Python values that the tools pass around: what `json.loads` returns, a float by its `repr`,
-- and any other object by the name of its type. A dict is a list of entries in insertion order.
mod Values
mod Equality
pub mod Dump
pub mod Sort
pub mod SortLookup
pub mod Pretty
pub mod Same
pub mod Bytes
unfoldable pub use Values.*
unfoldable pub use Equality.*
