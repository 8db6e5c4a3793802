-- ===== src/Core/Envelope.antt =====
-- core/envelope.go: the unit that every plugin emits. The payload's bytes are not looked at.
use supergraph.Common.{ℕ, String, List}

pub record Envelope : Type 0 where
  pub ts : ℕ
  pub source : String
  pub type : String
  pub v : ℕ
  pub key : String
  pub payload : List ℕ
