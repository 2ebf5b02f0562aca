-- ===== src/Auth/Bloom/Positions.antt =====
-- The positions of a username in the bit array of src/auth/bloom-filter.service.ts.
use native.Mathlib.Nat.{add_assoc}
use redis_api.Common.{
  ℕ, zero, suc, ◌+◌, ◌%◌, ◌≤◌, ◌<◌, ◌≡◌, ◌≢◌, refl, List, [], ◌∷◌, length, All, arith,
}
use redis_api.Text.{Str}
use redis_api.Auth.Bloom.{bit_size, num_hashes, odd_hash, position, positions, fnv1a, djb2}

odd_hash-odd : (h : ℕ) → odd_hash h % 2 ≡ 1
odd_hash-odd h = ground arith

-- A step of an odd h2 is no multiple of the 64 that divides the size, up to the 63rd.
position-apart :
    (h1 h2 i d : ℕ) → h2 % 2 ≡ 1 → 0 < d → d < 7 → position h1 h2 i ≢ position h1 h2 (i + d)
position-apart h1 h2 i zero odd pos small = absurd (omega arith)
position-apart h1 h2 i (suc zero) odd pos small = omega arith
position-apart h1 h2 i (suc (suc zero)) odd pos small = omega arith
position-apart h1 h2 i (suc (suc (suc zero))) odd pos small = omega arith
position-apart h1 h2 i (suc (suc (suc (suc zero)))) odd pos small = omega arith
position-apart h1 h2 i (suc (suc (suc (suc (suc zero))))) odd pos small = omega arith
position-apart h1 h2 i (suc (suc (suc (suc (suc (suc zero)))))) odd pos small = omega arith
position-apart h1 h2 i (suc (suc (suc (suc (suc (suc (suc d))))))) odd pos small =
    absurd (omega arith)

abbrev pub Distinct : List ℕ → Type 0
Distinct [] = Unit
Distinct (x ∷ xs) = All (λ y. x ≢ y) xs × Distinct xs

-- The positions from `i` on differ from the one before.
module _ (h1 h2 : ℕ) (odd : h2 % 2 ≡ 1) where
  steps : ℕ → ℕ → List ℕ
  steps i zero = []
  steps i (suc n) = position h1 h2 i ∷ steps (i + 1) n

  steps-apart : (i d n : ℕ) → 0 < d → d + n ≤ 7 → All (λ p. position h1 h2 i ≢ p) (steps (i + d) n)
  unfolding steps
  steps-apart i d zero pos few = tt
  steps-apart i d (suc n) pos few = (
    position-apart h1 h2 i d odd pos (omega arith),
    rw (add_assoc i d 1) (steps-apart i (d + 1) n (omega arith) (omega arith)),
  )

  steps-Distinct : (i n : ℕ) → n ≤ 7 → Distinct (steps i n)
  unfolding steps
  steps-Distinct i zero few = tt
  steps-Distinct i (suc n) few =
      (steps-apart i 1 n (omega arith) (omega arith), steps-Distinct (i + 1) n (omega arith))

-- Every username has seven positions, below the size of the bit array, and no two of them are equal.
pub positions-Distinct :
    (value : Str)
    → (length (positions value) ≡ num_hashes)
      × All (λ p. p < bit_size) (positions value)
      × Distinct (positions value)
unfolding positions steps
positions-Distinct value =
    let h2raw = djb2 value % bit_size in
    (
      refl,
      omega arith,
      steps-Distinct (fnv1a value % bit_size) (odd_hash h2raw) (odd_hash-odd h2raw) 0 7
          (omega arith),
    )
