-- ===== src/Sql.antt =====
-- The SQL that the drivers send: conditions, statements and the parameters bound to them, as the
-- text in the drivers reads (AND binds tighter than OR). A condition is evaluated on a row; what a
-- server does with a statement is a parameter of the drivers' models.
mod Syntax
mod Connection
pub mod Guard
unfoldable pub use Syntax.*
pub use Connection.*
