-- ===== src/Store.antt =====
-- The Hub's database (hub/database.py) and the statements that the services run on it.
pub mod Table
pub mod Schema
pub mod Bodies
pub mod Hub
pub mod Tx
pub mod Lift
pub mod Cascade
pub mod Valid
pub mod Growth
pub mod Ends
pub mod Keeps
pub mod Governed
pub mod Lookup
pub mod Frame
