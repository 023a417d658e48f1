-- ===== src/Db/Returns.antt =====
-- Total correctness of a run: it ends, without a fatal error, in a state with a postcondition.
use my_study.Db.State.{Db, Run, ok, fatal, out_of_fuel, M, and_then}

pub data Returns {A : Type 0} (P : A → Db → Type 0) : Run A → Type 0 where
  returns : {a : A} {db : Db} → P a db → Returns P (ok a db)

pub bind :
    {A B : Type 0} {P : A → Db → Type 0} {Q : B → Db → Type 0} {r : Run A} {k : A → M B}
    → Returns P r
    → ((a : A) (db : Db) → P a db → Returns Q (k a db))
    → Returns Q (and_then r k)
bind (returns p) next = next _ _ p

pub weaken :
    {A : Type 0} {P Q : A → Db → Type 0} {r : Run A}
    → Returns P r
    → ((a : A) (db : Db) → P a db → Q a db)
    → Returns Q r
weaken (returns p) h = returns (h _ _ p)

-- The same for what follows the second of two steps.
pub bind_second :
    {A B C : Type 0} {P : B → Db → Type 0} {Q : C → Db → Type 0} (m : Run A) (k : A → M B)
    (l : B → M C)
    → Returns P (and_then m k)
    → ((b : B) (db : Db) → P b db → Returns Q (l b db))
    → Returns Q (and_then m (λ a db. and_then (k a db) l))
bind_second (ok a db) k l h next = bind h next
bind_second (fatal e) k l h next = bind h next
bind_second out_of_fuel k l h next = bind h next
