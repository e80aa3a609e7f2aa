-- ===== src/Models.antt =====
-- src-bill/models: the records that the billing reads and writes. A key of a table, a time and a
-- count are naturals; what the code compares with 0 or may make negative is an integer. A
-- `char` array is its codes up to the terminating 0, and a pointer is an `Option`.
pub mod Double
pub mod Call
pub mod Tariff
pub mod Trunk
pub mod Routing
