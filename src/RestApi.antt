-- ===== src/RestApi.antt =====
-- m04-rest-api: the customer service over HTTP. `Customer` and `Repo` are the domain package;
-- `Errors`, `Wire`, `Handler` and `Middleware` are the package `httpapi`.
pub mod Customer
pub mod Repo
pub mod Errors
pub mod Wire
pub mod Handler
pub mod Middleware
pub mod Api
mod Tests
