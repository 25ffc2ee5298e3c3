-- ===== src/Capstone/Domain.antt =====
-- m14-capstone/domain/domain.go. Its `CustomerEvent` has the fields of the one in m09-jetstream,
-- which stands for both; the subjects are the same texts too.
use go_learning.Common.{ℕ, Bytes}

pub record Customer : Type 0 where
  pub id : Bytes
  pub email : Bytes
  pub name : Bytes
  pub created_at : ℕ
