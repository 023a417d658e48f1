-- ===== src/Rwlock/Examples.antt =====
-- A queue of three jobs.
use my_study.Base.{ℕ, ◌≡◌, ◌+◌, ◌==◌, if◌then◌else◌, true, refl, none, some, [], ◌∷◌, arith}
use my_study.Links.{Store, Queue, Holds}
use my_study.Printd.Jobs.{remove_job}
use my_study.Rwlock.{queue_init, job_insert, job_append, job_remove, job_find}
use my_study.Rwlock.Removal.{job_remove-remove_job}
use my_study.Rwlock.Find.{Runs, job_find-first_of}

-- The node at an address handles the thread of that number and 40 more.
abbrev fresh_nodes : Store ℕ
fresh_nodes p = record { next = none; prev = none; item = 40 + p }

abbrev three : Queue ℕ
three = job_append (job_insert (job_append (queue_init fresh_nodes) 1) 2) 3

job_find-first_of_example : job_find true three 43 4 ≡ some (some 3)
unfolding job_insert job_append
job_find-first_of_example = job_find-first_of three ((2, 42) ∷ (1, 41) ∷ (3, 43) ∷ []) 43 (
    Runs.appended 3 ((λ e. omega arith), ((λ e. omega arith), tt))
      (Runs.inserted 2 ((λ e. omega arith), tt) (Runs.appended 1 tt (Runs.started fresh_nodes))))

abbrev pair : Queue ℕ
pair = record {
  head = some 1;
  tail = some 2;
  nodes = λ p. record {
    next = if p == 1 then some 2 else none;
    prev = if p == 1 then none else some 1;
    item = p;
  };
}

pair-Holds : Holds pair (1 ∷ 2 ∷ [])
pair-Holds = record {
  from_head = refl;
  to_tail = refl;
  linked = (refl, refl, (refl, refl, tt));
  distinct = (((λ e. omega arith), tt), (tt, tt));
}

job_remove-remove_job_example : job_remove pair 2 ≡ some (remove_job pair 2)
job_remove-remove_job_example = job_remove-remove_job pair (1 ∷ []) [] 2 pair-Holds
