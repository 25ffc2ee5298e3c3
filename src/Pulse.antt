-- ===== src/Pulse.antt =====
-- m10-project-structure/pulse: the customer service laid out by feature.
pub mod Customer
pub mod Handler
pub mod Config
pub mod Itoa
pub mod Answers
pub mod Routes
mod Tests
