-- ===== src/Orders/Commit.antt =====
-- `commitOffsets` of order-consumer/src/orders/order.service.ts commits, for each partition of the
-- batch, the highest offset and one.
use Prim.Native.Nat.{max}
use mathlib.Core.List.{foldl}
use redis_api.Common.{
  ℕ, ◌+◌, ◌≤◌, ◌<◌, ◌≡◌, ◌∙◌, refl, ap, sym, ◌⊎◌, inl, inr, Bool-cases, ==_iff, Option, none, some,
  List, [], ◌∷◌, map, arith, ◌==◌, if◌then◌else◌,
}
use redis_api.Orders.{Event, Entry, note_offset, next_offset, commits}

-- The offset that a list of commits sets for a partition.
unfoldable pub offset_for : ℕ → List Entry → Option ℕ
offset_for p [] = none
offset_for p (x ∷ xs) = if x.partition == p then some x.offset else offset_for p xs

-- The higher one, where there is one.
abbrev pub higher : Option ℕ → ℕ → ℕ
higher none n = n
higher (some m) n = max m n

-- The highest offset of a partition among `batch`, above what was seen before.
unfoldable pub highest : ℕ → Option ℕ → List Event → Option ℕ
highest p seen [] = seen
highest p seen (e ∷ es) =
    highest p (if e.partition == p then some (higher seen e.offset) else seen) es

abbrev pub plus_one : Option ℕ → Option ℕ
plus_one none = none
plus_one (some n) = some (n + 1)

offset_for-note :
    (p : ℕ) (xs : List Entry) (e : Event)
    → offset_for p (note_offset xs e)
      ≡ (if e.partition == p then some (higher (offset_for p xs) e.offset) else offset_for p xs)
unfolding offset_for note_offset
offset_for-note p [] e = ground arith
offset_for-note p (x ∷ xs) e = ground (arith, offset_for-note p xs e)

offset_for-fold :
    (p : ℕ) (xs : List Entry) (es : List Event)
    → offset_for p (foldl note_offset xs es) ≡ highest p (offset_for p xs) es
unfolding highest
offset_for-fold p xs [] = refl
offset_for-fold p xs (e ∷ es) =
    offset_for-fold p (note_offset xs e) es ∙ rw (offset_for-note p xs e) refl

offset_for-next :
    (p : ℕ) (xs : List Entry) → offset_for p (map next_offset xs) ≡ plus_one (offset_for p xs)
unfolding offset_for
offset_for-next p [] = refl
offset_for-next p (x ∷ xs) = ground (arith, offset_for-next p xs)

-- For every partition, the commit sets the highest offset of the batch and one, and nothing where
-- the batch has no event of the partition.
pub commits-highest :
    (p : ℕ) (batch : List Event) → offset_for p (commits batch) ≡ plus_one (highest p none batch)
unfolding commits offset_for
commits-highest p batch =
    offset_for-next p (foldl note_offset [] batch) ∙ ap plus_one (offset_for-fold p [] batch)

abbrev pub In : {A : Type 0} → A → List A → Type 0
In e [] = ⊥
In e (x ∷ xs) = (e ≡ x) ⊎ In e xs

abbrev pub Covers : Option ℕ → ℕ → Type 0
Covers none n = ⊥
Covers (some m) n = n ≤ m

highest-seen :
    (p n : ℕ) (seen : Option ℕ) (es : List Event) → Covers seen n → Covers (highest p seen es) n
unfolding highest
highest-seen p n seen [] h = h
highest-seen p n none (e ∷ es) h = absurd h
highest-seen p n (some m) (e ∷ es) h =
    highest-seen p n (if e.partition == p then some (max m e.offset) else some m) es
      (elim (Bool-cases (e.partition == p)) [
        | inl here ↦ rw here (omega arith)
        | inr other ↦ rw other h
      ])

higher-Covers : (seen : Option ℕ) (n : ℕ) → Covers (some (higher seen n)) n
higher-Covers none n = omega arith
higher-Covers (some m) n = omega arith

highest-Covers :
    (p : ℕ) (seen : Option ℕ) (es : List Event) (e : Event)
    → e.partition ≡ p
    → In e es
    → Covers (highest p seen es) e.offset
unfolding highest
highest-Covers p seen (x ∷ es) e h (inl same) =
    highest-seen p e.offset (if x.partition == p then some (higher seen x.offset) else seen) es (
      rw
        (
          (==_iff x.partition p).1 (ap (λ (z : Event). z.partition) (sym same) ∙ h),
          ap (λ (z : Event). z.offset) same,
        )
        (higher-Covers seen x.offset))
highest-Covers p seen (x ∷ es) e h (inr later) =
    highest-Covers p (if x.partition == p then some (higher seen x.offset) else seen) es e h later
highest-Covers p seen [] e h i = absurd i

covered_next : (o : Option ℕ) (n : ℕ) → Covers o n → (m : ℕ) × (plus_one o ≡ some m) × (n < m)
covered_next none n h = absurd h
covered_next (some m) n h = (m + 1, refl, omega arith)

-- The commit passes every event of the batch.
pub commits-pass :
    (batch : List Event) (e : Event)
    → In e batch
    → (m : ℕ) × (offset_for e.partition (commits batch) ≡ some m) × (e.offset < m)
commits-pass batch e i = rw (commits-highest e.partition batch) (
    covered_next (highest e.partition none batch) e.offset
      (highest-Covers e.partition none batch e refl i))
