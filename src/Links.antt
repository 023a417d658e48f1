-- ===== src/Links.antt =====
-- Doubly linked lists in a store, as the printer daemon (apue.3e/printer/printd.c) and the job queue
-- of apue.3e/threads/rwlock.c keep them: nodes with their two pointers, the fields of the queue,
-- and what it means that they hold a list.
pub mod Laws
use my_study.Base.{
  ℕ, ◌==◌, ◌≡◌, ◌≢◌, Bool, true, false, Option, none, some, List, [], ◌∷◌, All, if◌then◌else◌,
}

module _ {ℓ} where
  pub record Node (A : Type ℓ) : Type ℓ where
    pub next : Option ℕ
    pub prev : Option ℕ
    pub item : A

  -- The nodes by their addresses; none is NULL.
  abbrev pub Store : Type ℓ → Type ℓ
  Store A = ℕ → Node A

  pub record Queue (A : Type ℓ) : Type ℓ where
    pub head : Option ℕ
    pub tail : Option ℕ
    pub nodes : Store A

-- The address that a list starts with, and the one that it ends with.
abbrev pub first_or : List ℕ → Option ℕ → Option ℕ
first_or [] after = after
first_or (x ∷ xs) after = some x

abbrev pub last_or : Option ℕ → List ℕ → Option ℕ
last_or before [] = before
last_or before (x ∷ xs) = last_or (some x) xs

abbrev pub Misses : ℕ → List ℕ → Type 0
Misses p xs = All (λ x. x ≢ p) xs

abbrev pub Distinct : List ℕ → Type 0
Distinct [] = Unit
Distinct (x ∷ xs) = Misses x xs × Distinct xs

module _ {ℓ} {A : Type ℓ} where
  abbrev pub write : Store A → ℕ → Node A → Store A
  write h p n q = if q == p then n else h q

  -- `p->next = v`
  abbrev pub set_next : Store A → ℕ → Option ℕ → Store A
  set_next h p v = write h p (record (h p) { next = v })

  -- `p->prev = v`
  abbrev pub set_prev : Store A → ℕ → Option ℕ → Store A
  set_prev h p v = write h p (record (h p) { prev = v })

  -- The nodes at the addresses are linked to each other, to what is before and to what is after.
  abbrev pub Chain : Store A → Option ℕ → List ℕ → Option ℕ → Type 0
  Chain h before [] after = Unit
  Chain h before (x ∷ xs) after =
      ((h x).prev ≡ before) × ((h x).next ≡ first_or xs after) × Chain h (some x) xs after

  -- The queue holds the nodes at these addresses, in this order.
  pub record Holds (q : Queue A) (xs : List ℕ) : Type 0 where
    pub from_head : q.head ≡ first_or xs none
    pub to_tail : q.tail ≡ last_or none xs
    pub linked : Chain q.nodes none xs none
    pub distinct : Distinct xs
