-- ===== src/Common/Replies.antt =====
-- What a call to another system resolves to: `error` is an error reply or a lost connection.
pub data Answer {ℓ} (A : Type ℓ) : Type ℓ where
  answer : A → Answer A
  error : Answer A
