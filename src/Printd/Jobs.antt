-- ===== src/Printd/Jobs.antt =====
-- The list of pending jobs: add_job, replace_job and remove_job of apue.3e/printer/printd.c, under
-- `joblock`. The items of the nodes are the jobs; `head` and `tail` are jobhead and jobtail.
use my_study.Base.{ℕ, Option, none, some}
use my_study.Links.{Store, Queue, write, set_next, set_prev}

module _ {ℓ} {A : Type ℓ} where
  -- The two ways to link in the last job.
  abbrev pub behind_tail : Store A → Option ℕ → Option ℕ → ℕ → Queue A
  behind_tail h head none p = record { head = some p; tail = some p; nodes = h }
  behind_tail h head (some t) p = record {
    head = head;
    tail = some p;
    nodes = set_next h t (some p);
  }

  -- `add_job`, with the node that malloc gave, at `p`.
  unfoldable pub add_job : Queue A → ℕ → A → Queue A
  add_job q p job =
      behind_tail (write q.nodes p (record { next = none; prev = q.tail; item = job })) q.head
        q.tail p

  abbrev pub before_head : Store A → Option ℕ → Option ℕ → ℕ → Queue A
  before_head h none tail p = record { head = some p; tail = some p; nodes = h }
  before_head h (some x) tail p = record {
    head = some p;
    tail = tail;
    nodes = set_prev h x (some p);
  }

  -- `replace_job`
  unfoldable pub replace_job : Queue A → ℕ → Queue A
  replace_job q p =
      before_head (write q.nodes p (record (q.nodes p) { next = q.head; prev = none })) q.head
        q.tail p

  -- The first test of `remove_job`, on `target->next`.
  abbrev pub mend_next : Queue A → ℕ → Option ℕ → Queue A
  mend_next q target (some y) = record q { nodes = set_prev q.nodes y (q.nodes target).prev }
  mend_next q target none = record q { tail = (q.nodes target).prev }

  -- The second, on `target->prev`.
  abbrev pub mend_prev : Queue A → ℕ → Option ℕ → Queue A
  mend_prev q target (some x) = record q { nodes = set_next q.nodes x (q.nodes target).next }
  mend_prev q target none = record q { head = (q.nodes target).next }

  -- `remove_job`
  unfoldable pub remove_job : Queue A → ℕ → Queue A
  remove_job q target =
      let q' = mend_next q target (q.nodes target).next in
      mend_prev q' target (q'.nodes target).prev
