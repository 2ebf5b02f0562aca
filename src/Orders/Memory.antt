-- ===== src/Orders/Memory.antt =====
-- A table and a consumer group in memory, on which the theorems about the order service are applied.
use redis_api.Common.{
  ℕ, ◌≡◌, refl, true, Option, none, some, List, [], ◌∷◌, ◌++◌, Answer, answer, error, false,
  if◌then◌else◌,
}
use redis_api.Common.Int.{pos}
use redis_api.Text.{codes}
use redis_api.Orders.{Event, Order}
use redis_api.Orders.Commit.{offset_for}
use redis_api.Orders.World.{clashes, Table, Group, Systems, World, Fault}

abbrev pub insert_list : List Order → List Order → Answer (Unit {0}) × List Order
insert_list os s = if clashes os s then (error, s) else (answer tt, s ++ os)

pub insert_list-clash : (os s : List Order) → clashes os s ≡ true → insert_list os s ≡ (error, s)
insert_list-clash os s h = rw h refl

pub insert_list-new :
    (os s : List Order)
    → clashes os s ≡ false
    → ((insert_list os s).0 ≡ answer tt) × ((insert_list os s).1 ≡ s ++ os)
insert_list-new os s h = rw h (refl, refl)

abbrev pub postgres : Table
postgres = record {
  State = List Order;
  rows = λ s. s;
  insert_rows = insert_list;
  update_rows = λ os s. (answer tt, s);
  insert-clash = insert_list-clash;
  insert-new = insert_list-new;
  update_lem = λ os s. refl;
}

abbrev pub kafka : Group
kafka = record {
  State = ℕ → Option ℕ;
  position = λ p s. s p;
  commit = λ es s p. elim (offset_for p es) [ none ↦ s p | some n ↦ some n ];
  position-commit = λ p es s. refl;
}

abbrev pub host : Systems
host = record { table = postgres; group = kafka }

-- The first calls meet these faults.
abbrev pub world : List Fault → World host
world fs = record { table = []; group = λ p. none; waited = []; faults = fs }

abbrev pub sold : ℕ → ℕ → Event
sold p n = record {
  dto = record { remaining = pos n; success = true; message = codes "used"; correlation_id = none };
  topic = codes "inventory.item-used";
  partition = p;
  offset = n;
}

-- Five events of one partition.
abbrev pub five : List Event
five = sold 0 1 ∷ sold 0 2 ∷ sold 0 3 ∷ sold 0 4 ∷ sold 0 5 ∷ []
