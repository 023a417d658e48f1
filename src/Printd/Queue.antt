-- ===== src/Printd/Queue.antt =====
-- What the operations on the list of jobs do to the list that it holds.
use my_study.Base.{
  ℕ, ◌≡◌, ◌≢◌, refl, sym, ap, ◌∙◌, subst, ◌==◌, ==→eq, Bool, true, false, Option, none, some, List,
  [], ◌∷◌, ◌++◌, All-split, if◌then◌else◌,
}
use my_study.Links.{
  Node, Store, Queue, write, set_next, first_or, last_or, Chain, Misses, Distinct, Holds,
}
use my_study.Links.Laws.{
  write-other, write-same, Chain-write, Chain-set_prev, Chain-set_next, Chain-append,
  first_or-append, last_or-append, Apart-first, Distinct-split, Distinct-join, Misses-Apart,
  snoc-ind, first_or-snoc,
}
use my_study.Printd.Jobs.{behind_tail, before_head, add_job, replace_job}

module _ {ℓ} {A : Type ℓ} where
  -- A queue that holds the jobs behind a change, which keeps the items of all nodes but those at `p`.
  abbrev pub KeepsItems : ℕ → Store A → Store A → Type ℓ
  KeepsItems p h h' = (x : ℕ) → x ≢ p → (h' x).item ≡ (h x).item

  pub write-item :
      (h : Store A) (p x : ℕ) (n : Node A) → n.item ≡ (h p).item → (write h p n x).item ≡ (h x).item
  write-item h p x n same = on (x == p) refl
    where
      on : (b : Bool) → (x == p) ≡ b → (if◌then◌else◌ {A = Node A} b n (h x)).item ≡ (h x).item
      on true e = same ∙ ap (λ y. (h y).item) (sym (==→eq x p e))
      on false e = refl

  module _ (h : Store A) (head : Option ℕ) (p : ℕ) where
    -- What is known of a list and its last address when `p` is linked in behind it.
    abbrev Behind : List ℕ → Option ℕ → Type 0
    Behind xs tail =
        Misses p xs
        → Distinct xs
        → Chain h none xs none
        → head ≡ first_or xs none
        → (h p).next ≡ none
        → (h p).prev ≡ tail
        → Holds (behind_tail h head tail p) (xs ++ (p ∷ []))

    nil-Behind : Behind [] none
    nil-Behind away d c e next prev = record {
      from_head = refl;
      to_tail = refl;
      linked = (prev, next, tt);
      distinct = (tt, tt);
    }

    snoc-Behind : (zs : List ℕ) (x : ℕ) → Behind (zs ++ (x ∷ [])) (some x)
    snoc-Behind zs x away d c e next prev =
        let xs = zs ++ (x ∷ []) in
        let parts = Distinct-split zs (x ∷ []) d in
        let x_ne : x ≢ p = (All-split (λ y. y ≢ p) zs (x ∷ []) away).1.0 in
        let same = write-other h x p (record (h x) { next = some p }) (λ q. x_ne (sym q)) in
        record {
          from_head = e ∙ first_or-snoc zs x none (some p) ∙ sym (first_or-append xs (p ∷ []) none);
          to_tail = sym (last_or-append none xs (p ∷ []));
          linked =
              Chain-append (set_next h x (some p)) none xs (p ∷ []) none
                (Chain-set_next h none zs x none (some p) (Apart-first x zs [] parts.2).0 c)
                (
                  ap (λ (m : Node A). m.prev) same ∙ prev ∙ sym (last_or-append none zs (x ∷ [])),
                  ap (λ (m : Node A). m.next) same ∙ next,
                  tt,
                );
          distinct = Distinct-join xs (p ∷ []) d (tt, tt) (Misses-Apart p xs away);
        }

    behind-items :
        (tail : Option ℕ) (x : ℕ) → ((behind_tail h head tail p).nodes x).item ≡ (h x).item
    behind-items none x = refl
    behind-items (some t) x = write-item h t x (record (h t) { next = some p }) refl

  pub add_job-Holds :
      (q : Queue A) (xs : List ℕ) (p : ℕ) (job : A)
      → Misses p xs
      → Holds q xs
      → Holds (add_job q p job) (xs ++ (p ∷ []))
  unfolding add_job
  add_job-Holds q xs p job away h =
      let n : Node A = record { next = none; prev = q.tail; item = job } in
      let same = write-same q.nodes p n in
      subst (λ tail. Holds (behind_tail (write q.nodes p n) q.head tail p) (xs ++ (p ∷ [])))
        (sym h.to_tail)
        (snoc-ind (Behind (write q.nodes p n) q.head p) (nil-Behind (write q.nodes p n) q.head p)
          (snoc-Behind (write q.nodes p n) q.head p) xs away h.distinct
          (Chain-write q.nodes p n none xs none away h.linked) h.from_head
          (ap (λ (m : Node A). m.next) same) (ap (λ (m : Node A). m.prev) same ∙ h.to_tail))

  front-Holds :
      (h : Store A) (tail : Option ℕ) (p : ℕ) (xs : List ℕ)
      → Misses p xs
      → Distinct xs
      → Chain h none xs none
      → tail ≡ last_or none xs
      → (h p).prev ≡ none
      → (h p).next ≡ first_or xs none
      → Holds (before_head h (first_or xs none) tail p) (p ∷ xs)
  front-Holds h tail p [] away d c e prev next = record {
    from_head = refl;
    to_tail = refl;
    linked = (prev, next, tt);
    distinct = (tt, tt);
  }
  front-Holds h tail p (y ∷ ys) away d c e prev next =
      let same = write-other h y p (record (h y) { prev = some p }) (λ q. away.0 (sym q)) in
      record {
        from_head = refl;
        to_tail = e;
        linked = (
          ap (λ (m : Node A). m.prev) same ∙ prev,
          ap (λ (m : Node A). m.next) same ∙ next,
          Chain-set_prev h none (some p) y ys none d.0 c,
        );
        distinct = (away, d);
      }

  pub replace_job-Holds :
      (q : Queue A) (xs : List ℕ) (p : ℕ)
      → Misses p xs
      → Holds q xs
      → Holds (replace_job q p) (p ∷ xs)
  unfolding replace_job
  replace_job-Holds q xs p away h =
      let n : Node A = record (q.nodes p) { next = q.head; prev = none } in
      let same = write-same q.nodes p n in
      subst (λ head. Holds (before_head (write q.nodes p n) head q.tail p) (p ∷ xs))
        (sym h.from_head)
        (front-Holds (write q.nodes p n) q.tail p xs away h.distinct
          (Chain-write q.nodes p n none xs none away h.linked) h.to_tail
          (ap (λ (m : Node A). m.prev) same) (ap (λ (m : Node A). m.next) same ∙ h.from_head))

  pub add_job-items :
      (q : Queue A) (p : ℕ) (job : A)
      → (((add_job q p job).nodes p).item ≡ job) × KeepsItems p q.nodes (add_job q p job).nodes
  unfolding add_job
  add_job-items q p job =
      let n : Node A = record { next = none; prev = q.tail; item = job } in
      let h = write q.nodes p n in
      (
        behind-items h q.head p q.tail p ∙ ap (λ (m : Node A). m.item) (write-same q.nodes p n),
        λ x ne.
            behind-items h q.head p q.tail x
            ∙ ap (λ (m : Node A). m.item) (write-other q.nodes p x n ne),
      )

  front-items :
      (h : Store A) (head tail : Option ℕ) (p x : ℕ)
      → ((before_head h head tail p).nodes x).item ≡ (h x).item
  front-items h none tail p x = refl
  front-items h (some y) tail p x = write-item h y x (record (h y) { prev = some p }) refl

  pub replace_job-items :
      (q : Queue A) (p x : ℕ) → ((replace_job q p).nodes x).item ≡ (q.nodes x).item
  unfolding replace_job
  replace_job-items q p x =
      let n : Node A = record (q.nodes p) { next = q.head; prev = none } in
      front-items (write q.nodes p n) q.head q.tail p x ∙ write-item q.nodes p x n refl
