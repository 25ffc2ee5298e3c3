-- ===== src/PgCustomer.antt =====
-- m06-postgresql/solution-customer: the repository over PostgreSQL.
pub mod Repo
pub mod Enrolling
pub mod Mapping
pub mod Pool
mod Tests
