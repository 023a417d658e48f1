-- ===== src/Rwlock.antt =====
-- The queue of jobs of apue.3e/threads/rwlock.c, each operation under its lock.
pub mod Removal
pub mod Find
mod Examples
use my_study.Base.{ℕ, zero, suc, ◌==◌, Bool, true, false, Option, none, some, if◌then◌else◌}
use my_study.Links.{Node, Store, Queue, write, set_next, set_prev}

-- `jp == p`, where `p` may be NULL.
abbrev pub is : ℕ → Option ℕ → Bool
is jp none = false
is jp (some p) = p == jp

module _ {ℓ} {A : Type ℓ} where
  -- `queue_init` on the nodes that there are.
  abbrev pub queue_init : Store A → Queue A
  queue_init h = record { head = none; tail = none; nodes = h }

  abbrev pub insert_before : Store A → ℕ → Option ℕ → Option ℕ → Queue A
  insert_before h jp none tail = record { head = some jp; tail = some jp; nodes = h }
  insert_before h jp (some x) tail = record {
    head = some jp;
    tail = tail;
    nodes = set_prev h x (some jp);
  }

  -- `job_insert`
  unfoldable pub job_insert : Queue A → ℕ → Queue A
  job_insert q jp =
      insert_before (write q.nodes jp (record (q.nodes jp) { next = q.head; prev = none })) jp
        q.head q.tail

  abbrev pub append_behind : Store A → ℕ → Option ℕ → Option ℕ → Queue A
  append_behind h jp head none = record { head = some jp; tail = some jp; nodes = h }
  append_behind h jp head (some x) = record {
    head = head;
    tail = some jp;
    nodes = set_next h x (some jp);
  }

  -- `job_append`
  unfoldable pub job_append : Queue A → ℕ → Queue A
  job_append q jp =
      append_behind (write q.nodes jp (record (q.nodes jp) { next = none; prev = q.tail })) jp
        q.head q.tail

  -- `p->next = v` and `p->prev = v`; none is a NULL pointer that is followed.
  abbrev pub next_at : Queue A → Option ℕ → Option ℕ → Option (Queue A)
  next_at q none v = none
  next_at q (some p) v = some (record q { nodes = set_next q.nodes p v })

  abbrev pub prev_at : Queue A → Option ℕ → Option ℕ → Option (Queue A)
  prev_at q none v = none
  prev_at q (some p) v = some (record q { nodes = set_prev q.nodes p v })

  abbrev pub prev_of_next : ℕ → Option (Queue A) → Option (Queue A)
  prev_of_next jp none = none
  prev_of_next jp (some q) = prev_at q (q.nodes jp).next (q.nodes jp).prev

  -- `job_remove`; none is a NULL pointer that is followed.
  unfoldable pub job_remove : Queue A → ℕ → Option (Queue A)
  job_remove q jp =
      let n = q.nodes jp in
      if is jp q.head
      then (if is jp q.tail
          then some (record q { head = n.next; tail = none })
          else prev_at (record q { head = n.next }) n.next n.prev)
      else if is jp q.tail
      then next_at (record q { tail = n.prev }) n.prev n.next
      else prev_of_next jp (next_at q n.prev n.next)

-- The loop of `job_find`, for as many nodes as there is fuel: none if it is not enough.
unfoldable pub find_from : Store ℕ → ℕ → Option ℕ → ℕ → Option (Option ℕ)
find_from h zero jp id = none
find_from h (suc fuel) none id = some none
find_from h (suc fuel) (some p) id =
    let rest = find_from h fuel (h p).next id in if (h p).item == id then some (some p) else rest

-- `job_find`; the items of the nodes are the thread ids, and `locked` says whether the lock was taken.
unfoldable pub job_find : Bool → Queue ℕ → ℕ → ℕ → Option (Option ℕ)
job_find false q id fuel = some none
job_find true q id fuel = find_from q.nodes fuel q.head id
