-- ===== src/Printd/Removal.antt =====
-- What remove_job does to the list that a queue holds.
use my_study.Base.{
  ℕ, ◌≡◌, refl, sym, ap, ◌∙◌, subst, Option, none, some, List, [], ◌∷◌, ◌++◌, All-split,
}
use my_study.Links.{Node, Queue, write, first_or, last_or, Chain, Misses, Distinct, Holds}
use my_study.Links.Laws.{
  write-other, Chain-write, Chain-set_prev, Chain-set_next, Chain-append, Chain-split,
  first_or-append, last_or-append, Apart, Apart-first, Distinct-split, Distinct-join, snoc-ind,
  first_or-snoc,
}
use my_study.Printd.Jobs.{mend_next, mend_prev, remove_job}
use my_study.Printd.Queue.{write-item}

module _ {ℓ} {A : Type ℓ} where
  -- The state of a removal: the nodes before and behind `t`, where `b` is what the ones behind are
  -- linked to.
  record Parts (q : Queue A) (t : ℕ) (xs : List ℕ) (b : Option ℕ) (ys : List ℕ) : Type 0 where
    at_prev : (q.nodes t).prev ≡ last_or none xs
    at_next : (q.nodes t).next ≡ first_or ys none
    front : Chain q.nodes none xs (some t)
    back : Chain q.nodes b ys none
    starts : q.head ≡ first_or xs (some t)
    ends : q.tail ≡ last_or b ys

  Holds-Parts :
      (q : Queue A) (t : ℕ) (xs ys : List ℕ) → Holds q (xs ++ (t ∷ ys)) → Parts q t xs (some t) ys
  Holds-Parts q t xs ys h =
      let parts = Chain-split q.nodes none xs (t ∷ ys) none h.linked in
      record {
        at_prev = parts.1.0;
        at_next = parts.1.1;
        front = parts.0;
        back = parts.1.2;
        starts = h.from_head ∙ first_or-append xs (t ∷ ys) none;
        ends = h.to_tail ∙ last_or-append none xs (t ∷ ys);
      }

  mend_next-Parts :
      (q : Queue A) (t : ℕ) (xs ys : List ℕ)
      → Distinct (t ∷ ys)
      → Apart xs ys
      → Parts q t xs (some t) ys
      → Parts (mend_next q t (first_or ys none)) t xs (last_or none xs) ys
  mend_next-Parts q t xs [] d apart h = record {
    at_prev = h.at_prev;
    at_next = h.at_next;
    front = h.front;
    back = tt;
    starts = h.starts;
    ends = h.at_prev;
  }
  mend_next-Parts q t xs (y ∷ ys) d apart h =
      let n : Node A = record (q.nodes y) { prev = (q.nodes t).prev } in
      let same = write-other q.nodes y t n (λ e. d.0.0 (sym e)) in
      record {
        at_prev = ap (λ (m : Node A). m.prev) same ∙ h.at_prev;
        at_next = ap (λ (m : Node A). m.next) same ∙ h.at_next;
        front = Chain-write q.nodes y n none xs (some t) (Apart-first y xs ys apart).0 h.front;
        back =
            subst (λ b. Chain (write q.nodes y n) b (y ∷ ys) none) h.at_prev
              (Chain-set_prev q.nodes (some t) (q.nodes t).prev y ys none d.1.0 h.back);
        starts = h.starts;
        ends = h.ends;
      }

  -- What a removal ends with, from the list before `t` and its last address.
  abbrev Mended : Queue A → ℕ → List ℕ → List ℕ → Option ℕ → Type 0
  Mended q t ys xs last =
      Parts q t xs last ys → Distinct (xs ++ ys) → Holds (mend_prev q t last) (xs ++ ys)

  nil-Mended : (q : Queue A) (t : ℕ) (ys : List ℕ) → Mended q t ys [] none
  nil-Mended q t ys h d = record {
    from_head = h.at_next;
    to_tail = h.ends;
    linked = h.back;
    distinct = d;
  }

  snoc-Mended :
      (q : Queue A) (t : ℕ) (ys : List ℕ) (zs : List ℕ) (x : ℕ)
      → Mended q t ys (zs ++ (x ∷ [])) (some x)
  snoc-Mended q t ys zs x h d =
      let xs = zs ++ (x ∷ []) in
      let parts = Distinct-split xs ys d in
      let ends = Distinct-split zs (x ∷ []) parts.0 in
      let n : Node A = record (q.nodes x) { next = (q.nodes t).next } in
      let away : Misses x ys = (All-split (λ y. Misses y ys) zs (x ∷ []) parts.2).1.0 in
      record {
        from_head =
            h.starts
            ∙ first_or-snoc zs x (some t) (first_or ys none)
            ∙ sym (first_or-append xs ys none);
        to_tail =
            h.ends
            ∙ ap (λ b. last_or b ys) (sym (last_or-append none zs (x ∷ [])))
            ∙ sym (last_or-append none xs ys);
        linked =
            Chain-append (write q.nodes x n) none xs ys none
              (subst (Chain (write q.nodes x n) none xs) h.at_next (
                Chain-set_next q.nodes none zs x (some t) (q.nodes t).next
                  (Apart-first x zs [] ends.2).0 h.front))
              (subst (λ b. Chain (write q.nodes x n) b ys none)
                (sym (last_or-append none zs (x ∷ [])))
                (Chain-write q.nodes x n (some x) ys none away h.back));
        distinct = d;
      }

  pub remove_job-Holds :
      (q : Queue A) (xs ys : List ℕ) (t : ℕ)
      → Holds q (xs ++ (t ∷ ys))
      → Holds (remove_job q t) (xs ++ ys)
  unfolding remove_job
  remove_job-Holds q xs ys t h =
      let parts = Distinct-split xs (t ∷ ys) h.distinct in
      let apart = (Apart-first t xs ys parts.2).1 in
      let start = Holds-Parts q t xs ys h in
      let q' = mend_next q t (first_or ys none) in
      let middle = mend_next-Parts q t xs ys parts.1 apart start in
      subst
        (λ nx. Holds (mend_prev (mend_next q t nx) t ((mend_next q t nx).nodes t).prev) (xs ++ ys))
        (sym start.at_next)
        (subst (λ pv. Holds (mend_prev q' t pv) (xs ++ ys)) (sym middle.at_prev)
          (snoc-ind (Mended q' t ys) (nil-Mended q' t ys) (snoc-Mended q' t ys) xs middle
            (Distinct-join xs ys parts.0 parts.1.1 apart)))

  mend_next-items :
      (q : Queue A) (t : ℕ) (o : Option ℕ) (x : ℕ)
      → ((mend_next q t o).nodes x).item ≡ (q.nodes x).item
  mend_next-items q t none x = refl
  mend_next-items q t (some y) x =
      write-item q.nodes y x (record (q.nodes y) { prev = (q.nodes t).prev }) refl

  mend_prev-items :
      (q : Queue A) (t : ℕ) (o : Option ℕ) (x : ℕ)
      → ((mend_prev q t o).nodes x).item ≡ (q.nodes x).item
  mend_prev-items q t none x = refl
  mend_prev-items q t (some y) x =
      write-item q.nodes y x (record (q.nodes y) { next = (q.nodes t).next }) refl

  pub remove_job-items :
      (q : Queue A) (t x : ℕ) → ((remove_job q t).nodes x).item ≡ (q.nodes x).item
  unfolding remove_job
  remove_job-items q t x =
      let q' = mend_next q t (q.nodes t).next in
      mend_prev-items q' t (q'.nodes t).prev x ∙ mend_next-items q t (q.nodes t).next x
