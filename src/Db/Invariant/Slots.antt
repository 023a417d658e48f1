-- ===== src/Db/Invariant/Slots.antt =====
-- Changing the list of one slot, and lists whose records lie apart.
use my_study.Base.{
  ℕ, ◌≤◌, ◌≡◌, ◌≢◌, refl, sym, subst, false, ◌⊎◌, inl, inr, List, [], ◌∷◌, ◌++◌, arith, ◌==◌,
  ==_refl, ne→==, ==→eq, Bool-cases, if◌then◌else◌, All, All-split, All-append,
}
use my_study.Db.Layout.{Entry}
use my_study.Db.Invariant.{Apart, ApartAll, PairwiseApart, DistinctKeys}

-- The lists with another one at slot `b`.
unfoldable pub put : ℕ → List Entry → (ℕ → List Entry) → ℕ → List Entry
put b es lists k = if k == b then es else lists k

pub put_self : (b : ℕ) (es : List Entry) (lists : ℕ → List Entry) → put b es lists b ≡ es
unfolding put
put_self b es lists = rw (==_refl b)

pub put_ne :
    (b : ℕ) (es : List Entry) (lists : ℕ → List Entry) (k : ℕ) → k ≢ b → put b es lists k ≡ lists k
unfolding put
put_ne b es lists k h = rw (ne→== k b h)

-- A property of all slots: of the new list at `b`, and of the old lists elsewhere.
pub put_ind {κ} :
    (P : ℕ → List Entry → Type κ) (b : ℕ) (es : List Entry) (lists : ℕ → List Entry)
    → P b es
    → ((k : ℕ) → k ≢ b → P k (lists k))
    → (k : ℕ) → P k (put b es lists k)
put_ind P b es lists new old k = elim (Bool-cases (k == b)) [
  | inl h ↦
      let e = ==→eq k b h in
      subst (λ m. P m (put b es lists m)) (sym e) (subst (P b) (sym (put_self b es lists)) new)
  | inr h ↦
      let ne : k ≢ b = λ e. absurd (omega (arith, ne_of h e)) in
      subst (P k) (sym (put_ne b es lists k ne)) (old k ne)
]
  where
    ne_of : (k == b) ≡ false → k ≢ b
    ne_of h e = ground arith

pub Apart-symm : (d e : Entry) → Apart d e → Apart e d
Apart-symm d e a = record { in_idx = flip a.in_idx; in_dat = flip a.in_dat }
  where
    flip : {A B : Type 0} → A ⊎ B → B ⊎ A
    flip (inl x) = inr x
    flip (inr x) = inl x

-- Every record of the one list lies apart from every record of the other.
abbrev pub Cross : List Entry → List Entry → Type 0
Cross xs ys = All (λ e. ApartAll e ys) xs

pub Cross-symm : (xs ys : List Entry) → Cross xs ys → Cross ys xs
Cross-symm [] ys h = none ys
  where
    none : (ys : List Entry) → Cross ys []
    none [] = tt
    none (y ∷ ys) = (tt, none ys)
Cross-symm (x ∷ xs) ys (hx, h) = cons ys hx (Cross-symm xs ys h)
  where
    cons : (ys : List Entry) → ApartAll x ys → Cross ys xs → Cross ys (x ∷ xs)
    cons [] a c = tt
    cons (y ∷ ys) (ay, a) (cy, c) = ((Apart-symm x y ay, cy), cons ys a c)

-- The records of a list without one of them.
pub PairwiseApart-split :
    (xs : List Entry) (e : Entry) (ys : List Entry)
    → PairwiseApart (xs ++ (e ∷ ys))
    → PairwiseApart (xs ++ ys) × ApartAll e (xs ++ ys) × Cross xs ys × PairwiseApart xs
PairwiseApart-split [] e ys (ae, p) = (p, ae, tt, tt)
PairwiseApart-split (x ∷ xs) e ys (ax, p) =
    let (q, ae, c, px) = PairwiseApart-split xs e ys p in
    let (a, b) = All-split (Apart x) xs (e ∷ ys) ax in
    ((All-append (Apart x) xs ys a b.1, q), (Apart-symm x e b.0, ae), (b.1, c), (a, px))

pub DistinctKeys-split :
    (xs : List Entry) (e : Entry) (ys : List Entry)
    → DistinctKeys (xs ++ (e ∷ ys))
    → DistinctKeys (xs ++ ys) × All (λ d. d.key ≢ e.key) (xs ++ ys)
DistinctKeys-split [] e ys (ae, p) = (p, ae)
DistinctKeys-split (x ∷ xs) e ys (ax, p) =
    let (q, ae) = DistinctKeys-split xs e ys p in
    let (a, b) = All-split (λ d. d.key ≢ x.key) xs (e ∷ ys) ax in
    ((All-append (λ d. d.key ≢ x.key) xs ys a b.1, q), ((λ h. b.0 (sym h)), ae))

-- Slots whose lists lie apart from one another, up to slot `n`.
abbrev pub AcrossSlots : ℕ → (ℕ → List Entry) → Type 0
AcrossSlots n lists = (k m : ℕ) → k ≤ n → m ≤ n → k ≢ m → Cross (lists k) (lists m)

pub AcrossSlots-put :
    (n b : ℕ) (es : List Entry) (lists : ℕ → List Entry)
    → AcrossSlots n lists
    → ((m : ℕ) → m ≤ n → m ≢ b → Cross es (lists m))
    → AcrossSlots n (put b es lists)
AcrossSlots-put n b es lists across new k m =
    put_ind (λ k xs. k ≤ n → m ≤ n → k ≢ m → Cross xs (put b es lists m)) b es lists
      (put_ind (λ m ys. b ≤ n → m ≤ n → b ≢ m → Cross es ys) b es lists
        (λ hb hm ne. absurd (ne refl)) (λ m nb hb hm ne. new m hm nb) m)
      (λ k nk.
        put_ind (λ m ys. k ≤ n → m ≤ n → k ≢ m → Cross (lists k) ys) b es lists
          (λ hk hm ne. Cross-symm es (lists k) (new k hk nk)) (λ m nb hk hm ne. across k m hk hm ne)
          m)
      k
