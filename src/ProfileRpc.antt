-- ===== src/ProfileRpc.antt =====
-- m05-grpc: the profile service over gRPC. `Repo`, `Server` and `Client` are solution-profile,
-- `Interceptor` is solution-interceptor with the chain of solution-cmd/server.
pub mod Command
pub mod Repo
pub mod Server
pub mod Client
pub mod Interceptor
pub mod Session
pub mod Chain
pub mod Events
mod Tests
