-- ===== src/Orders/Clashes.antt =====
-- The unique key of order-consumer/src/orders/order.entity.ts on rows that are written in parts.
use redis_api.Common.{◌≡◌, refl, ◌||◌, false, List, [], ◌∷◌, ◌++◌, append_assoc, append-nil, arith}
use redis_api.Orders.{Order}
use redis_api.Orders.World.{same_key, has_key, clashes}

-- Rows that were added do not make a clash go away, and what clashes with the whole clashes with a
-- part or with what was added.
has_key-append :
    (o : Order) (xs ys : List Order) → has_key o (xs ++ ys) ≡ (has_key o xs || has_key o ys)
unfolding has_key
has_key-append o [] ys = refl
has_key-append o (x ∷ xs) ys = ground (arith, has_key-append o xs ys)

same_key_comm : (a b : Order) → same_key a b ≡ same_key b a
same_key_comm a b = ground arith

-- A row that does not clash with those behind it can be written first.
clashes-move :
    (x : Order) (zs rows : List Order)
    → has_key x zs ≡ false
    → clashes zs rows ≡ false
    → clashes zs (rows ++ x ∷ []) ≡ false
unfolding clashes has_key
clashes-move x [] rows h k = refl
clashes-move x (z ∷ zs) rows h k =
    ground (arith, has_key-append z rows (x ∷ []), same_key_comm x z, clashes-move x zs rows)

pub clashes-append :
    (xs ys rows : List Order) → clashes (xs ++ ys) rows ≡ false → clashes ys (rows ++ xs) ≡ false
unfolding clashes
clashes-append [] ys rows h = rw (append-nil rows) h
clashes-append (x ∷ xs) ys rows h =
    let moved = clashes-move x (xs ++ ys) rows (ground arith) (ground arith) in
    rw (← append_assoc rows (x ∷ []) xs) (clashes-append xs ys (rows ++ x ∷ []) moved)

pub clashes-left :
    (xs ys rows : List Order) → clashes (xs ++ ys) rows ≡ false → clashes xs rows ≡ false
unfolding clashes
clashes-left [] ys rows h = refl
clashes-left (x ∷ xs) ys rows h = ground (arith, has_key-append x xs ys, clashes-left xs ys rows)

pub clashes-right :
    (xs ys rows : List Order) → clashes (xs ++ ys) rows ≡ false → clashes ys rows ≡ false
unfolding clashes
clashes-right [] ys rows h = h
clashes-right (x ∷ xs) ys rows h = ground (arith, clashes-right xs ys rows)
