-- ===== src/Store.antt =====
-- internal/store: the SQLite job store. `Model` has the tables, `Sql` the statements and
-- transactions, and each other child one group of the store's methods.
pub mod Model
pub mod Sql
pub mod Transition
pub mod Create
pub mod Claim
pub mod Recovery
pub mod Retention
pub mod Deliveries
pub mod Cache
pub mod Schedules
pub mod Listing
pub mod Invariant
