-- ===== src/Decimal.antt =====
-- The standard library's decimal text of an `int64_t` (`to_string`, `<<`) and its parser `stoll`,
-- as far as the program uses them.
mod Print
mod Parse
unfoldable pub use Print.*
unfoldable pub use Parse.*
