-- ===== src/Api/Reply.antt =====
-- What a handler answers: a value, no content, or an error status.
use ci_system.Prelude.{ℕ}

pub data Reply (A : Type 0) : Type 0 where
  ok : A → Reply A
  no_content : Reply A
  error : ℕ → Reply A
