-- ===== src/RestApi/Api.antt =====
-- What a client of m04-rest-api sees: properties of whole requests.
pub mod OneAnswer
pub mod Answers
pub mod Keeps
pub mod Guarded
pub mod Session
