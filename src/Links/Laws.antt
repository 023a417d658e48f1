-- ===== src/Links/Laws.antt =====
-- How writes change a chain: outside it, at its ends, and between two parts of it.
use my_study.Base.{
  ℕ, ◌≡◌, ◌≢◌, refl, sym, ap, ◌∙◌, ne→==, ==_refl, Option, none, some, List, [], ◌∷◌, ◌++◌, All,
  All-append, All-split, ◌⊎◌, inl, inr, subst,
}
use my_study.Links.{
  Node, Store, write, set_next, set_prev, first_or, last_or, Chain, Misses, Distinct,
}

pub first_or-snoc :
    (xs : List ℕ) (x : ℕ) (after after' : Option ℕ)
    → first_or (xs ++ (x ∷ [])) after ≡ first_or (xs ++ (x ∷ [])) after'
first_or-snoc [] x after after' = refl
first_or-snoc (y ∷ ys) x after after' = refl

pub first_or-append :
    (xs ys : List ℕ) (after : Option ℕ)
    → first_or (xs ++ ys) after ≡ first_or xs (first_or ys after)
first_or-append [] ys after = refl
first_or-append (x ∷ xs) ys after = refl

pub last_or-append :
    (before : Option ℕ) (xs ys : List ℕ)
    → last_or before (xs ++ ys) ≡ last_or (last_or before xs) ys
last_or-append before [] ys = refl
last_or-append before (x ∷ xs) ys = last_or-append (some x) xs ys

module _ {ℓ} {A : Type ℓ} where
  pub write-other : (h : Store A) (p q : ℕ) (n : Node A) → q ≢ p → write h p n q ≡ h q
  write-other h p q n ne = rw (ne→== q p ne)

  pub write-same : (h : Store A) (p : ℕ) (n : Node A) → write h p n p ≡ n
  write-same h p n = rw (==_refl p)

  -- A write elsewhere leaves the chain.
  pub Chain-write :
      (h : Store A) (p : ℕ) (n : Node A) (before : Option ℕ) (xs : List ℕ) (after : Option ℕ)
      → Misses p xs
      → Chain h before xs after
      → Chain (write h p n) before xs after
  Chain-write h p n before [] after away c = tt
  Chain-write h p n before (x ∷ xs) after away c =
      let same = write-other h p x n away.0 in
      (
        ap (λ (m : Node A). m.prev) same ∙ c.0,
        ap (λ (m : Node A). m.next) same ∙ c.1,
        Chain-write h p n (some x) xs after away.1 c.2,
      )

  -- The first node gets another predecessor.
  pub Chain-set_prev :
      (h : Store A) (before before' : Option ℕ) (x : ℕ) (xs : List ℕ) (after : Option ℕ)
      → Misses x xs
      → Chain h before (x ∷ xs) after
      → Chain (set_prev h x before') before' (x ∷ xs) after
  Chain-set_prev h before before' x xs after away c =
      let same = write-same h x (record (h x) { prev = before' }) in
      (
        ap (λ (m : Node A). m.prev) same,
        ap (λ (m : Node A). m.next) same ∙ c.1,
        Chain-write h x (record (h x) { prev = before' }) (some x) xs after away c.2,
      )

  -- The last node gets another successor.
  pub Chain-set_next :
      (h : Store A) (before : Option ℕ) (xs : List ℕ) (x : ℕ) (after after' : Option ℕ)
      → Misses x xs
      → Chain h before (xs ++ (x ∷ [])) after
      → Chain (set_next h x after') before (xs ++ (x ∷ [])) after'
  Chain-set_next h before [] x after after' away c =
      let same = write-same h x (record (h x) { next = after' }) in
      (ap (λ (m : Node A). m.prev) same ∙ c.0, ap (λ (m : Node A). m.next) same, tt)
  Chain-set_next h before (y ∷ ys) x after after' away c =
      let same = write-other h x y (record (h x) { next = after' }) away.0 in
      (
        ap (λ (m : Node A). m.prev) same ∙ c.0,
        ap (λ (m : Node A). m.next) same ∙ c.1 ∙ first_or-snoc ys x after after',
        Chain-set_next h (some y) ys x after after' away.1 c.2,
      )

  pub Chain-append :
      (h : Store A) (before : Option ℕ) (xs ys : List ℕ) (after : Option ℕ)
      → Chain h before xs (first_or ys after)
      → Chain h (last_or before xs) ys after
      → Chain h before (xs ++ ys) after
  Chain-append h before [] ys after c d = d
  Chain-append h before (x ∷ xs) ys after c d =
      (c.0, c.1 ∙ sym (first_or-append xs ys after), Chain-append h (some x) xs ys after c.2 d)

  pub Chain-split :
      (h : Store A) (before : Option ℕ) (xs ys : List ℕ) (after : Option ℕ)
      → Chain h before (xs ++ ys) after
      → Chain h before xs (first_or ys after) × Chain h (last_or before xs) ys after
  Chain-split h before [] ys after c = (tt, c)
  Chain-split h before (x ∷ xs) ys after c =
      let rest = Chain-split h (some x) xs ys after c.2 in
      ((c.0, c.1 ∙ first_or-append xs ys after, rest.0), rest.1)

-- No address of one list stands in the other.
abbrev pub Apart : List ℕ → List ℕ → Type 0
Apart xs ys = All (λ x. Misses x ys) xs

Misses-sym : (p : ℕ) (xs ys : List ℕ) → Apart xs (p ∷ ys) → Misses p xs
Misses-sym p [] ys h = tt
Misses-sym p (x ∷ xs) ys h = ((λ e. h.0.0 (sym e)), Misses-sym p xs ys h.1)

pub Apart-first : (p : ℕ) (xs ys : List ℕ) → Apart xs (p ∷ ys) → Misses p xs × Apart xs ys
Apart-first p [] ys h = (tt, tt)
Apart-first p (x ∷ xs) ys h = (Misses-sym p (x ∷ xs) ys h, (h.0.1, (Apart-first p xs ys h.1).1))

pub Distinct-split :
    (xs ys : List ℕ) → Distinct (xs ++ ys) → Distinct xs × Distinct ys × Apart xs ys
Distinct-split [] ys d = (tt, d, tt)
Distinct-split (x ∷ xs) ys d =
    let away = All-split (λ y. y ≢ x) xs ys d.0 in
    let rest = Distinct-split xs ys d.1 in ((away.0, rest.0), rest.1, (away.1, rest.2))

pub Distinct-join : (xs ys : List ℕ) → Distinct xs → Distinct ys → Apart xs ys → Distinct (xs ++ ys)
Distinct-join [] ys d e h = e
Distinct-join (x ∷ xs) ys d e h =
    (All-append (λ y. y ≢ x) xs ys d.0 h.0, Distinct-join xs ys d.1 e h.1)

pub Misses-Apart : (p : ℕ) (xs : List ℕ) → Misses p xs → Apart xs (p ∷ [])
Misses-Apart p [] h = tt
Misses-Apart p (x ∷ xs) h = (((λ e. h.0 (sym e)), tt), Misses-Apart p xs h.1)

-- A list is empty or has a last element.
pub snoc-cases : (xs : List ℕ) → (xs ≡ []) ⊎ ((zs : List ℕ) × (x : ℕ) × (xs ≡ zs ++ (x ∷ [])))
snoc-cases [] = inl refl
snoc-cases (x ∷ xs) = elim (snoc-cases xs) [
  | inl e ↦ inr ([], x, ap (λ ys. x ∷ ys) e)
  | inr (zs, y, e) ↦ inr (x ∷ zs, y, ap (λ ys. x ∷ ys) e)
]

-- A property of a list and its last address holds if it does for the empty list and for a list with
-- a last element.
pub snoc-ind {κ} :
    (P : List ℕ → Option ℕ → Type κ)
    → P [] none
    → ((zs : List ℕ) (x : ℕ) → P (zs ++ (x ∷ [])) (some x))
    → (xs : List ℕ) → P xs (last_or none xs)
snoc-ind P empty ends xs = elim (snoc-cases xs) [
  | inl e ↦ subst (λ ys. P ys (last_or none ys)) (sym e) empty
  | inr (zs, x, e) ↦
      subst (λ ys. P ys (last_or none ys)) (sym e)
        (subst (P (zs ++ (x ∷ []))) (sym (last_or-append none zs (x ∷ []))) (ends zs x))
]
