-- ===== src/Db/Invariant/Move.antt =====
-- A record moves from the list of one slot to the front of another, rewritten in its place: what
-- `_db_dodelete` does to a chain and the free list, and the reuse of a free record to the free list
-- and a chain.
pub mod Frames
pub mod Files
pub mod Reuse
use my_study.Base.{
  ℕ, zero, suc, ◌+◌, ◌*◌, ◌≤◌, ◌<◌, ◌≡◌, ◌≢◌, ◌⊎◌, inl, inr, refl, sym, subst, List, [], ◌∷◌, ◌++◌,
  arith, length, All, All-map, All-append, All-split,
}
use my_study.Base.Bytes.{Bytes}
use my_study.Base.Bytes.Text.{Lacks}
use my_study.Db.State.{ptr_sz}
use my_study.Db.Layout.{
  PtrAt, Entry, RecAt, DatAt, Seg, Linked, Rest, IsRecord, first_off, end_of, datlen_of, text_of,
}
use my_study.Db.Layout.Split.{Linked-join}
use my_study.Db.Invariant.{Holds, header, Apart, ApartAll, PairwiseApart, DistinctKeys}
use my_study.Db.Invariant.Slots.{
  put, put_ind, Cross, Cross-symm, PairwiseApart-split, AcrossSlots-put,
}

-- `e'` takes the place of `e` in both files.
pub record InPlace (e e' : Entry) : Type 0 where
  pub off : e'.off ≡ e.off
  pub datoff : e'.datoff ≡ e.datoff
  pub size : length (text_of e') ≡ length (text_of e)
  pub datlen : length e'.text ≡ length e.text

-- Record `e` of slot `a`, between `before` and `after`, goes to the front of slot `b` as `e'`.
pub record Moves (nhash : ℕ) (lists : ℕ → List Entry) (a b : ℕ) (before : List Entry) (e : Entry)
    (after : List Entry) (e' : Entry) : Type 0 where
  pub from : a ≤ nhash
  pub to : b ≤ nhash
  pub differ : a ≢ b
  pub whole : lists a ≡ before ++ (e ∷ after)
  pub in_place : InPlace e e'
  pub valid : IsRecord e'.key e'.datoff (datlen_of e')
  pub no_nul : Lacks 0 e'.text

-- The lists after the move.
abbrev pub moved_lists : (ℕ → List Entry) → ℕ → ℕ → List Entry → Entry → List Entry → ℕ → List Entry
moved_lists lists a b before e' after = put b (e' ∷ lists b) (put a (before ++ after) lists)

-- What the files must hold after the move.
pub record Moved (f g : Bytes) (nhash : ℕ) (lists : ℕ → List Entry) (a b : ℕ) (before : List Entry)
    (e' : Entry) (after : List Entry) : Type 0 where
  pub has_header : header nhash ≤ length f
  pub others : (k : ℕ) → k ≤ nhash → k ≢ a → k ≢ b → Linked f g (k * ptr_sz) (lists k)
  pub left : Linked f g (a * ptr_sz) (before ++ after)
  pub joined : Linked f g (b * ptr_sz) (e' ∷ lists b)

ApartAll-InPlace : (e e' : Entry) (es : List Entry) → InPlace e e' → ApartAll e es → ApartAll e' es
ApartAll-InPlace e e' es i = All-map es λ d a. record {
  in_idx = omega (arith, a.in_idx, i.off, i.size);
  in_dat = omega (arith, a.in_dat, i.datoff, i.datlen);
}

module _ (f g : Bytes) (nhash : ℕ) (lists : ℕ → List Entry) (inv : Holds f g nhash lists) (a b : ℕ)
    (before : List Entry) (e : Entry) (after : List Entry) (e' : Entry)
    (m : Moves nhash lists a b before e after e') where
  parts :
      PairwiseApart (before ++ after)
      × ApartAll e (before ++ after)
      × Cross before after
      × PairwiseApart before
  parts = PairwiseApart-split before e after (subst PairwiseApart m.whole (inv.within a m.from))

  Cross-from : (k : ℕ) → k ≤ nhash → k ≢ a → Cross (before ++ (e ∷ after)) (lists k)
  Cross-from k h ne =
      subst (λ es. Cross es (lists k)) m.whole (inv.across a k m.from h (λ e. ne (sym e)))

  left_behind : All (λ d. header nhash ≤ d.off) before × All (λ d. header nhash ≤ d.off) (e ∷ after)
  left_behind =
      All-split (λ d. header nhash ≤ d.off) before (e ∷ after)
        (subst (All (λ d. header nhash ≤ d.off)) m.whole (inv.behind a m.from))

  -- The moved record lies apart from all others.
  pub apart_others : (k : ℕ) → k ≤ nhash → k ≢ a → ApartAll e (lists k)
  apart_others k h ne =
      (All-split (λ d. ApartAll d (lists k)) before (e ∷ after) (Cross-from k h ne)).1.0

  pub before_others : (k : ℕ) → k ≤ nhash → k ≢ a → Cross before (lists k)
  before_others k h ne =
      (All-split (λ d. ApartAll d (lists k)) before (e ∷ after) (Cross-from k h ne)).0

  after_others : (k : ℕ) → k ≤ nhash → k ≢ a → Cross (before ++ after) (lists k)
  after_others k h ne =
      let (x, y) = All-split (λ d. ApartAll d (lists k)) before (e ∷ after) (Cross-from k h ne) in
      All-append (λ d. ApartAll d (lists k)) before after x y.1

  Linked-after :
      (f' g' : Bytes)
      → Moved f' g' nhash lists a b before e' after
      → (k : ℕ) → k ≤ nhash
      → Linked f' g' (k * ptr_sz) (moved_lists lists a b before e' after k)
  Linked-after f' g' w =
      put_ind (λ k es. k ≤ nhash → Linked f' g' (k * ptr_sz) es) b (e' ∷ lists b)
        (put a (before ++ after) lists) (λ h. w.joined)
        λ k nb.
          put_ind (λ k es. k ≢ b → k ≤ nhash → Linked f' g' (k * ptr_sz) es) a (before ++ after)
            lists (λ nb h. w.left) (λ k na nb h. w.others k h na nb) k nb

  behind_after :
      (k : ℕ)
      → k ≤ nhash
      → All (λ d. header nhash ≤ d.off) (moved_lists lists a b before e' after k)
  behind_after =
      put_ind (λ k es. k ≤ nhash → All (λ d. header nhash ≤ d.off) es) b (e' ∷ lists b)
        (put a (before ++ after) lists)
        (λ h. (omega (arith, left_behind.1.0, m.in_place.off), inv.behind b m.to))
        (put_ind (λ k es. k ≢ b → k ≤ nhash → All (λ d. header nhash ≤ d.off) es) a
          (before ++ after) lists
          (λ nb h.
            All-append (λ d. header nhash ≤ d.off) before after left_behind.0 left_behind.1.1)
          (λ k na nb h. inv.behind k h))

  within_after : (k : ℕ) → k ≤ nhash → PairwiseApart (moved_lists lists a b before e' after k)
  within_after =
      put_ind (λ k es. k ≤ nhash → PairwiseApart es) b (e' ∷ lists b)
        (put a (before ++ after) lists)
        (λ h. (
          ApartAll-InPlace e e' (lists b) m.in_place (apart_others b m.to (λ h. m.differ (sym h))),
          inv.within b m.to,
        ))
        (put_ind (λ k es. k ≢ b → k ≤ nhash → PairwiseApart es) a (before ++ after) lists
          (λ nb h. parts.0) (λ k na nb h. inv.within k h))

  across_after :
      (k j : ℕ)
      → k ≤ nhash
      → j ≤ nhash
      → k ≢ j
      → Cross (moved_lists lists a b before e' after k) (moved_lists lists a b before e' after j)
  across_after =
      AcrossSlots-put nhash b (e' ∷ lists b) (put a (before ++ after) lists)
        (AcrossSlots-put nhash a (before ++ after) lists inv.across after_others)
        λ j h nb.
          put_ind (λ j es. j ≤ nhash → j ≢ b → Cross (e' ∷ lists b) es) a (before ++ after) lists
            (λ h nb. (
              ApartAll-InPlace e e' (before ++ after) m.in_place parts.1,
              Cross-symm (before ++ after) (lists b) (after_others b m.to (λ q. m.differ (sym q))),
            ))
            (λ j na h nb. (
              ApartAll-InPlace e e' (lists j) m.in_place (apart_others j h na),
              inv.across b j m.to h (λ q. nb (sym q)),
            ))
            j h nb

  -- The move keeps the invariant.
  pub Holds-Moved :
      (f' g' : Bytes)
      → Moved f' g' nhash lists a b before e' after
      → ((k : ℕ) → k < nhash → DistinctKeys (moved_lists lists a b before e' after (suc k)))
      → Holds f' g' nhash (moved_lists lists a b before e' after)
  Holds-Moved f' g' w distinct = record {
    has_chains = inv.has_chains;
    has_header = w.has_header;
    linked = Linked-after f' g' w;
    behind = behind_after;
    within = within_after;
    across = across_after;
    distinct = distinct;
  }
