-- ===== src/Settings.antt =====
-- src/properties.h, with `Trim` and `StrToBool` of src/utils.h: the properties that the command line
-- and the property files set. A `std::map` is the list of its pairs, a key at most once.
mod Trim
mod Lookup
pub mod Loading
unfoldable pub use Trim.*
unfoldable pub use Lookup.*
