-- ===== src/Rwlock/Find.antt =====
-- The queue of jobs as its list: which calls change it how, and which job job_find returns.
use my_study.Base.{
  ℕ, suc, ◌≡◌, refl, sym, ◌∙◌, subst, ◌==◌, Bool, true, false, Option, none, some, List, [], ◌∷◌,
  ◌++◌, length, if◌then◌else◌,
}
use my_study.Links.{Store, Queue, write, first_or, Chain, Misses, Holds}
use my_study.Printd.Jobs.{before_head, behind_tail, add_job, replace_job, remove_job}
use my_study.Printd.Pending.{
  addresses, Represents, Carries, add_job-Represents, replace_job-Represents, remove_job-Represents,
  addresses-append,
}
use my_study.Rwlock.{
  queue_init, job_insert, job_append, job_remove, find_from, job_find, insert_before, append_behind,
}
use my_study.Rwlock.Removal.{job_remove-remove_job}

module _ {ℓ} {A : Type ℓ} where
  job_insert-replace_job : (q : Queue A) (p : ℕ) → job_insert q p ≡ replace_job q p
  unfolding job_insert replace_job
  job_insert-replace_job q p = on q.head
    where
      h : Store A
      h = write q.nodes p (record (q.nodes p) { next = q.head; prev = none })

      on : (o : Option ℕ) → insert_before h p o q.tail ≡ before_head h o q.tail p
      on none = refl
      on (some x) = refl

  job_append-add_job : (q : Queue A) (p : ℕ) → job_append q p ≡ add_job q p (q.nodes p).item
  unfolding job_append add_job
  job_append-add_job q p = on q.tail
    where
      h : Store A
      h = write q.nodes p (record (q.nodes p) { next = none; prev = q.tail })

      on : (o : Option ℕ) → append_behind h p q.head o ≡ behind_tail h q.head o p
      on none = refl
      on (some x) = refl

  -- The queues that calls reach, with the jobs that they hold: a job is put in front or behind with
  -- a node that is not in the list, or one of the list is taken out.
  pub data Runs : Queue A → List (ℕ × A) → Type ℓ where
    started : (h : Store A) → Runs (queue_init h) []
    inserted :
        {q : Queue A} {js : List (ℕ × A)} (p : ℕ)
        → Misses p (addresses js)
        → Runs q js
        → Runs (job_insert q p) ((p, (q.nodes p).item) ∷ js)
    appended :
        {q : Queue A} {js : List (ℕ × A)} (p : ℕ)
        → Misses p (addresses js)
        → Runs q js
        → Runs (job_append q p) (js ++ ((p, (q.nodes p).item) ∷ []))
    removed :
        {q q' : Queue A} (js ks : List (ℕ × A)) (t : ℕ) (job : A)
        → Runs q (js ++ ((t, job) ∷ ks))
        → job_remove q t ≡ some q'
        → Runs q' (js ++ ks)

  removed-Represents :
      (q q' : Queue A) (js ks : List (ℕ × A)) (t : ℕ) (job : A)
      → Represents q (js ++ ((t, job) ∷ ks))
      → job_remove q t ≡ some q'
      → Represents q' (js ++ ks)
  removed-Represents q q' js ks t job h e =
      let holds = subst (Holds q) (addresses-append js ((t, job) ∷ ks)) h.0 in
      let agree = sym (job_remove-remove_job q (addresses js) (addresses ks) t holds) ∙ e in
      let same : remove_job q t ≡ q' = cc in
      subst (λ r. Represents r (js ++ ks)) same (remove_job-Represents q js ks t job h)

  Runs-Represents : (q : Queue A) (js : List (ℕ × A)) → Runs q js → Represents q js
  Runs-Represents _ _ (Runs.started h) =
      (record { from_head = refl; to_tail = refl; linked = tt; distinct = tt }, tt)
  Runs-Represents _ _ (Runs.inserted {q} {js} p away r) =
      subst (λ s. Represents s ((p, (q.nodes p).item) ∷ js)) (sym (job_insert-replace_job q p))
        (replace_job-Represents q js p away (Runs-Represents q js r))
  Runs-Represents _ _ (Runs.appended {q} {js} p away r) =
      subst (λ s. Represents s (js ++ ((p, (q.nodes p).item) ∷ []))) (sym (job_append-add_job q p))
        (add_job-Represents q js p (q.nodes p).item away (Runs-Represents q js r))
  Runs-Represents _ _ (Runs.removed {q} {q'} js ks t job r e) =
      removed-Represents q q' js ks t job (Runs-Represents q (js ++ ((t, job) ∷ ks)) r) e

-- The node of the first job of the list that the thread handles.
abbrev pub first_of : ℕ → List (ℕ × ℕ) → Option ℕ
first_of id [] = none
first_of id (j ∷ js) = if j.1 == id then some j.0 else first_of id js

find_from-first_of :
    (h : Store ℕ) (before : Option ℕ) (js : List (ℕ × ℕ)) (id : ℕ)
    → Chain h before (addresses js) none
    → Carries h js
    → find_from h (suc (length js)) (first_or (addresses js) none) id ≡ some (first_of id js)
unfolding find_from
find_from-first_of h before [] id c k = refl
find_from-first_of h before (j ∷ js) id c k =
    rw (c.1, find_from-first_of h (some j.0) js id c.2 k.1, k.0) (either (j.1 == id))
  where
    either :
        (b : Bool)
        → (if b then some (some j.0) else some (first_of id js))
          ≡ some (if b then some j.0 else first_of id js)
    either true = refl
    either false = refl

-- After any calls of job_insert, job_append and job_remove on a new queue, job_find returns the node
-- of the first job, in the order of the list that the calls make, that the thread handles, or NULL if
-- there is none; its loop ends behind the last job. The lock was taken.
pub job_find-first_of :
    (q : Queue ℕ) (js : List (ℕ × ℕ)) (id : ℕ)
    → Runs q js
    → job_find true q id (suc (length js)) ≡ some (first_of id js)
unfolding job_find
job_find-first_of q js id r =
    let h = Runs-Represents q js r in
    rw (h.0.from_head) (find_from-first_of q.nodes none js id h.0.linked h.1)
