-- ===== src/Printd/Pending.antt =====
-- The list of jobs against its abstract view, a list of jobs with the addresses of their nodes.
use my_study.Base.{
  ℕ, ◌≡◌, refl, sym, ap, ◌∙◌, subst, none, List, [], ◌∷◌, ◌++◌, All, All-append, All-split,
}
use my_study.Links.{Store, Queue, Misses, Holds}
use my_study.Printd.Jobs.{add_job, replace_job, remove_job}
use my_study.Printd.Queue.{
  add_job-Holds, add_job-items, replace_job-Holds, replace_job-items, KeepsItems,
}
use my_study.Printd.Removal.{remove_job-Holds, remove_job-items}

module _ {ℓ} {A : Type ℓ} where
  abbrev pub addresses : List (ℕ × A) → List ℕ
  addresses [] = []
  addresses (j ∷ js) = j.0 ∷ addresses js

  -- The nodes carry the jobs.
  abbrev pub Carries : Store A → List (ℕ × A) → Type ℓ
  Carries h js = All (λ (j : ℕ × A). (h j.0).item ≡ j.1) js

  -- The queue holds these jobs, in this order.
  abbrev pub Represents : Queue A → List (ℕ × A) → Type ℓ
  Represents q js = Holds q (addresses js) × Carries q.nodes js

  pub addresses-append :
      (js ks : List (ℕ × A)) → addresses (js ++ ks) ≡ addresses js ++ addresses ks
  addresses-append [] ks = refl
  addresses-append (j ∷ js) ks = ap (λ r. j.0 ∷ r) (addresses-append js ks)

  Carries-same :
      (h h' : Store A) (js : List (ℕ × A))
      → ((x : ℕ) → (h' x).item ≡ (h x).item)
      → Carries h js
      → Carries h' js
  Carries-same h h' [] same c = tt
  Carries-same h h' (j ∷ js) same c = (same j.0 ∙ c.0, Carries-same h h' js same c.1)

  Carries-keeps :
      (h h' : Store A) (p : ℕ) (js : List (ℕ × A))
      → Misses p (addresses js)
      → KeepsItems p h h'
      → Carries h js
      → Carries h' js
  Carries-keeps h h' p [] away keeps c = tt
  Carries-keeps h h' p (j ∷ js) away keeps c =
      (keeps j.0 away.0 ∙ c.0, Carries-keeps h h' p js away.1 keeps c.1)

  pub add_job-Represents :
      (q : Queue A) (js : List (ℕ × A)) (p : ℕ) (job : A)
      → Misses p (addresses js)
      → Represents q js
      → Represents (add_job q p job) (js ++ ((p, job) ∷ []))
  add_job-Represents q js p job away (holds, carries) =
      let items = add_job-items q p job in
      (
        subst (Holds (add_job q p job)) (sym (addresses-append js ((p, job) ∷ [])))
            (add_job-Holds q (addresses js) p job away holds),
        All-append (λ (j : ℕ × A). ((add_job q p job).nodes j.0).item ≡ j.1) js ((p, job) ∷ [])
            (Carries-keeps q.nodes (add_job q p job).nodes p js away items.1 carries) (items.0, tt),
      )

  pub replace_job-Represents :
      (q : Queue A) (js : List (ℕ × A)) (p : ℕ)
      → Misses p (addresses js)
      → Represents q js
      → Represents (replace_job q p) ((p, (q.nodes p).item) ∷ js)
  replace_job-Represents q js p away (holds, carries) = (
    replace_job-Holds q (addresses js) p away holds,
    (
      replace_job-items q p p,
      Carries-same q.nodes (replace_job q p).nodes js (replace_job-items q p) carries,
    ),
  )

  pub remove_job-Represents :
      (q : Queue A) (js ks : List (ℕ × A)) (t : ℕ) (job : A)
      → Represents q (js ++ ((t, job) ∷ ks))
      → Represents (remove_job q t) (js ++ ks)
  remove_job-Represents q js ks t job (holds, carries) =
      let parts = All-split (λ (j : ℕ × A). (q.nodes j.0).item ≡ j.1) js ((t, job) ∷ ks) carries in
      (
        subst (Holds (remove_job q t)) (sym (addresses-append js ks)) (
            remove_job-Holds q (addresses js) (addresses ks) t
              (subst (Holds q) (addresses-append js ((t, job) ∷ ks)) holds)),
        Carries-same q.nodes (remove_job q t).nodes (js ++ ks) (remove_job-items q t)
            (All-append (λ (j : ℕ × A). (q.nodes j.0).item ≡ j.1) js ks parts.0 parts.1.1),
      )

  -- The lists that the daemon reaches from an empty one: a job is added behind the others with a new
  -- node, put back before them with a node that is not in the list, or taken out.
  pub data Reaches : Queue A → List (ℕ × A) → Type ℓ where
    started : (h : Store A) → Reaches (record { head = none; tail = none; nodes = h }) []
    added :
        {q : Queue A} {js : List (ℕ × A)} (p : ℕ) (job : A)
        → Misses p (addresses js)
        → Reaches q js
        → Reaches (add_job q p job) (js ++ ((p, job) ∷ []))
    replaced :
        {q : Queue A} {js : List (ℕ × A)} (p : ℕ)
        → Misses p (addresses js)
        → Reaches q js
        → Reaches (replace_job q p) ((p, (q.nodes p).item) ∷ js)
    removed :
        {q : Queue A} (js ks : List (ℕ × A)) (t : ℕ) (job : A)
        → Reaches q (js ++ ((t, job) ∷ ks))
        → Reaches (remove_job q t) (js ++ ks)

  -- Through any calls of add_job, replace_job and remove_job from an empty list, the pointers of the
  -- nodes, `jobhead` and `jobtail` hold the list that the calls make: an added job last, a replaced
  -- one first, a removed one gone and the others in their order, each with its own content. A node
  -- that is linked in is not in the list, and one that is taken out is.
  pub Reaches-Represents : (q : Queue A) (js : List (ℕ × A)) → Reaches q js → Represents q js
  Reaches-Represents _ _ (Reaches.started h) =
      (record { from_head = refl; to_tail = refl; linked = tt; distinct = tt }, tt)
  Reaches-Represents _ _ (Reaches.added p job away r) =
      add_job-Represents _ _ p job away (Reaches-Represents _ _ r)
  Reaches-Represents _ _ (Reaches.replaced p away r) =
      replace_job-Represents _ _ p away (Reaches-Represents _ _ r)
  Reaches-Represents _ _ (Reaches.removed js ks t job r) =
      remove_job-Represents _ js ks t job (Reaches-Represents _ _ r)
