-- ===== src/Sql.antt =====
-- GORM over MySQL, which the services call and do not implement: the statements that they issue
-- against one table, and transactions, as records of operations (Sql/Defs), with what their
-- documentation says of them as records of laws, the consequences of those (Sql/Laws) and an
-- engine that meets them (Sql/Memory).
mod Defs
mod Laws
pub mod Memory
pub mod Keeps
pub use Defs.*
pub use Laws.*
