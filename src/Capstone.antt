-- ===== src/Capstone.antt =====
-- m14-capstone: customers are created over HTTP, published, consumed, and welcomed.
pub mod Domain
pub mod Events
pub mod Notify
pub mod Api
pub mod Flow
pub mod Welcomes
mod Tests
