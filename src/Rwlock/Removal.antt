-- ===== src/Rwlock/Removal.antt =====
-- That job_remove is the removal of the printer daemon, and follows no NULL pointer.
use my_study.Base.{
  ℕ, ◌≡◌, ◌≢◌, refl, sym, ap, ◌∙◌, subst, ◌==◌, ne→==, ==_refl, ==→eq, Bool, true, false, Option,
  none, some, List, [], ◌∷◌, ◌++◌, All, if◌then◌else◌,
}
use mathlib.Core.Path.{fun_ext}
use my_study.Links.{Node, Store, Queue, write, set_next, set_prev, last_or, Holds}
use my_study.Links.Laws.{Chain-split, last_or-append, Apart-first, Distinct-split, write-other}
use my_study.Printd.Jobs.{mend_next, mend_prev, remove_job}
use my_study.Rwlock.{next_at, prev_at, prev_of_next, job_remove}

-- Where `q` is one address it is not another.
not_both : (q x y : ℕ) → x ≢ y → (q == x) ≡ true → (q == y) ≡ false
not_both q x y ne e = ne→== q y (λ d. ne (sym (==→eq q x e) ∙ d))

module _ {ℓ} {A : Type ℓ} where
  write_commute :
      (h : Store A) (x y : ℕ) (n m : Node A)
      → x ≢ y
      → write (write h y m) x n ≡ write (write h x n) y m
  write_commute h x y n m ne = fun_ext (λ q. on q (q == x) (q == y) (not_both q x y ne))
    where
      on :
          (q : ℕ) (a b : Bool)
          → (a ≡ true → b ≡ false)
          → (if◌then◌else◌ {A = Node A} a n (if b then m else h q))
            ≡ (if b then m else if a then n else h q)
      on q true true apart = let e = apart refl in cc
      on q true false apart = refl
      on q false b apart = refl

  -- Two fields of different nodes can be written in either order.
  set_commute :
      (h : Store A) (x y : ℕ) (v w : Option ℕ)
      → x ≢ y
      → set_next (set_prev h y v) x w ≡ set_prev (set_next h x w) y v
  set_commute h x y v w ne =
      let m : Node A = record (h y) { prev = v } in
      let n : Node A = record (h x) { next = w } in
      ap (λ (k : Node A). write (write h y m) x (record k { next = w })) (write-other h y x m ne)
      ∙ write_commute h x y n m ne
      ∙ ap (λ (k : Node A). write (write h x n) y (record k { prev = v }))
          (sym (write-other h x y n (λ e. ne (sym e))))

last_of {κ} :
    (P : ℕ → Type κ) (z : ℕ) (zs : List ℕ)
    → All P (z ∷ zs)
    → (x : ℕ) × ((last_or (some z) zs ≡ some x) × P x)
last_of P z [] h = (z, (refl, h.0))
last_of P z (y ∷ ys) h = last_of P y ys h.1

module _ {ℓ} {A : Type ℓ} where
  -- What the steps of the two removals do where a pointer is known.
  mend_next-some :
      (q : Queue A) (t y : ℕ) (o : Option ℕ)
      → o ≡ some y
      → mend_next q t o ≡ record q { nodes = set_prev q.nodes y (q.nodes t).prev }
  mend_next-some q t y o e = ap (mend_next q t) e

  mend_prev-none :
      (q : Queue A) (t : ℕ) (o : Option ℕ) (n : Node A)
      → o ≡ none
      → q.nodes t ≡ n
      → mend_prev q t o ≡ record q { head = n.next }
  mend_prev-none q t o n e same =
      ap (mend_prev q t) e ∙ ap (λ (k : Node A). record q { head = k.next }) same

  mend_prev-some :
      (q : Queue A) (t x : ℕ) (o : Option ℕ) (n : Node A)
      → o ≡ some x
      → q.nodes t ≡ n
      → mend_prev q t o ≡ record q { nodes = set_next q.nodes x n.next }
  mend_prev-some q t x o n e same =
      ap (mend_prev q t) e
      ∙ ap (λ (k : Node A). record q { nodes = set_next q.nodes x k.next }) same

  -- The second step, on what the first has left.
  abbrev second : ℕ → Queue A → Queue A
  second t q = mend_prev q t (q.nodes t).prev

  module _ (h : Store A) (t z w : ℕ) where
    abbrev queue : ℕ → ℕ → Queue A
    queue z w = record { head = some z; tail = some w; nodes = h }

    only :
        (h t).next ≡ none
        → (h t).prev ≡ none
        → job_remove (queue t t) t ≡ some (remove_job (queue t t) t)
    unfolding job_remove remove_job
    only next prev = rw (==_refl t) (
        ap some (
          ap (λ o. record { head = (h t).next; tail = o; nodes = h }) (sym prev)
          ∙ sym (
              ap (λ o. second t (mend_next (queue t t) t o)) next
              ∙ mend_prev-none (record { head = some t; tail = (h t).prev; nodes = h }) t (h t).prev
                  (h t) prev refl)))

    at_head :
        (y : ℕ)
        → w ≢ t
        → y ≢ t
        → (h t).next ≡ some y
        → (h t).prev ≡ none
        → job_remove (queue t w) t ≡ some (remove_job (queue t w) t)
    unfolding job_remove remove_job
    at_head y w_ne y_ne next prev =
        let h' = set_prev h y (h t).prev in
        let same = write-other h y t (record (h y) { prev = (h t).prev }) (λ e. y_ne (sym e)) in
        rw (==_refl t, ne→== w t w_ne)
          (ap (λ o. prev_at (record { head = (h t).next; tail = some w; nodes = h }) o (h t).prev)
              next
            ∙ ap some (
                sym (
                  ap (λ o. second t (mend_next (queue t w) t o)) next
                  ∙ mend_prev-none (record { head = some t; tail = some w; nodes = h' }) t
                      (h' t).prev (h t) (ap (λ (k : Node A). k.prev) same ∙ prev) same)))

    at_tail :
        (x : ℕ)
        → z ≢ t
        → (h t).next ≡ none
        → (h t).prev ≡ some x
        → job_remove (queue z t) t ≡ some (remove_job (queue z t) t)
    unfolding job_remove remove_job
    at_tail x z_ne next prev =
        let q' : Queue A = record { head = some z; tail = (h t).prev; nodes = h } in
        rw (==_refl t, ne→== z t z_ne)
          (ap (λ o. next_at q' o (h t).next) prev
            ∙ ap some (
                sym (
                  ap (λ o. second t (mend_next (queue z t) t o)) next
                  ∙ mend_prev-some q' t x (h t).prev (h t) prev refl)))

    between :
        (x y : ℕ)
        → z ≢ t
        → w ≢ t
        → x ≢ t
        → y ≢ t
        → x ≢ y
        → (h t).next ≡ some y
        → (h t).prev ≡ some x
        → job_remove (queue z w) t ≡ some (remove_job (queue z w) t)
    unfolding job_remove remove_job
    between x y z_ne w_ne x_ne y_ne xy_ne next prev =
        let h1 = set_next h x (h t).next in
        let h2 = set_prev h y (h t).prev in
        let same1 = write-other h x t (record (h x) { next = (h t).next }) (λ e. x_ne (sym e)) in
        let same2 = write-other h y t (record (h y) { prev = (h t).prev }) (λ e. y_ne (sym e)) in
        let q1 : Queue A = record { head = some z; tail = some w; nodes = h1 } in
        rw (ne→== z t z_ne, ne→== w t w_ne)
          (ap (λ o. prev_of_next t (next_at (queue z w) o (h t).next)) prev
            ∙ ap (λ (k : Node A). prev_at q1 k.next k.prev) same1
            ∙ ap (λ o. prev_at q1 o (h t).prev) next
            ∙ ap some (
                ap (λ g. record { head = some z; tail = some w; nodes = g })
                  (sym (set_commute h x y (h t).prev (h t).next xy_ne))
                ∙ sym (
                    ap (λ o. second t (mend_next (queue z w) t o)) next
                    ∙ mend_prev-some (record { head = some z; tail = some w; nodes = h2 }) t x
                        (h2 t).prev (h t) (ap (λ (k : Node A). k.prev) same2 ∙ prev) same2)))

  -- The two removals agree on a queue with these fields.
  abbrev Agree : Store A → ℕ → Option ℕ → Option ℕ → Type ℓ
  Agree h t head tail =
      let q : Queue A = record { head = head; tail = tail; nodes = h } in
      job_remove q t ≡ some (remove_job q t)

  with_ends :
      (q : Queue A) (t z w : ℕ)
      → q.head ≡ some z
      → q.tail ≡ some w
      → Agree q.nodes t (some z) (some w)
      → job_remove q t ≡ some (remove_job q t)
  with_ends q t z w head tail agree =
      subst (λ o. Agree q.nodes t o q.tail) (sym head)
        (subst (Agree q.nodes t (some z)) (sym tail) agree)

  -- On a queue that holds the job, job_remove follows no NULL pointer and leaves what remove_job of
  -- the printer daemon leaves, which tests the pointers of the job in place of those of the queue.
  pub job_remove-remove_job :
      (q : Queue A) (xs ys : List ℕ) (t : ℕ)
      → Holds q (xs ++ (t ∷ ys))
      → job_remove q t ≡ some (remove_job q t)
  job_remove-remove_job q [] [] t h =
      with_ends q t t t h.from_head h.to_tail (only q.nodes t t t h.linked.1 h.linked.0)
  job_remove-remove_job q [] (y ∷ ys) t h =
      let last = last_of (λ x. x ≢ t) y ys h.distinct.0 in
      with_ends q t t last.0 h.from_head (h.to_tail ∙ last.1.0)
        (at_head q.nodes t t last.0 y last.1.1 h.distinct.0.0 h.linked.1 h.linked.0)
  job_remove-remove_job q (z ∷ zs) [] t h =
      let parts = Chain-split q.nodes none (z ∷ zs) (t ∷ []) none h.linked in
      let apart = Distinct-split (z ∷ zs) (t ∷ []) h.distinct in
      let prev = last_of (λ x. x ≢ t) z zs (Apart-first t (z ∷ zs) [] apart.2).0 in
      with_ends q t z t h.from_head (h.to_tail ∙ last_or-append none (z ∷ zs) (t ∷ [])) (
        at_tail q.nodes t z t prev.0 (Apart-first t (z ∷ zs) [] apart.2).0.0 parts.1.1
          (parts.1.0 ∙ prev.1.0))
  job_remove-remove_job q (z ∷ zs) (y ∷ ys) t h =
      let parts = Chain-split q.nodes none (z ∷ zs) (t ∷ y ∷ ys) none h.linked in
      let apart = Distinct-split (z ∷ zs) (t ∷ y ∷ ys) h.distinct in
      let from_t = Apart-first t (z ∷ zs) (y ∷ ys) apart.2 in
      let from_y = Apart-first y (z ∷ zs) ys from_t.1 in
      let prev = last_of (λ x. x ≢ t) z zs from_t.0 in
      let prev' = last_of (λ x. x ≢ y) z zs from_y.0 in
      let last = last_of (λ x. x ≢ t) y ys apart.1.0 in
      let agree = sym prev'.1.0 ∙ prev.1.0 in
      let same : prev'.0 ≡ prev.0 = cc in
      with_ends q t z last.0 h.from_head
        (h.to_tail ∙ last_or-append none (z ∷ zs) (t ∷ y ∷ ys) ∙ last.1.0)
        (between q.nodes t z last.0 prev.0 y from_t.0.0 last.1.1 prev.1.1 apart.1.0.0
          (λ e. prev'.1.1 (same ∙ e)) parts.1.1 (parts.1.0 ∙ prev.1.0))
