-- ===== src/Db/Invariant/Rewrite.antt =====
-- The data of a record is overwritten by data of the same length.
use my_study.Base.{
  ℕ, suc, ◌*◌, ◌≤◌, ◌≡◌, ◌≢◌, refl, sym, subst, List, [], ◌∷◌, ◌++◌, arith, length, All, All-map,
  All-split, All-append,
}
use my_study.Base.Bytes.{Bytes}
use my_study.Base.Bytes.Text.{Lacks}
use my_study.Posix.{overwrite}
use my_study.Db.State.{ptr_sz}
use my_study.Db.Layout.{Entry, RecAt, Linked}
use my_study.Db.Layout.Split.{Seg-split, Linked-join}
use my_study.Db.Layout.Frame.{DatAway, Seg-frame_dat}
use my_study.Db.Layout.Write.{dat_bytes, length-dat_bytes, DatAt-write}
use my_study.Db.Invariant.{Holds, header, Apart, ApartAll, PairwiseApart, DistinctKeys}
use my_study.Db.Invariant.Slots.{
  put, put_ind, Cross, Apart-symm, PairwiseApart-split, AcrossSlots-put,
}

-- The record with other data.
abbrev pub retext : Entry → Bytes → Entry
retext e text = record e { text = text }

RecAt-retext :
    (f : Bytes) (e : Entry) (t : Bytes)
    → length t ≡ length e.text
    → RecAt f e
    → RecAt f (retext e t)
RecAt-retext f e t q r = record {
  not_null = r.not_null;
  fits = r.fits;
  ends = rw q r.ends;
  len_holds = rw q r.len_holds;
  text_holds = rw q r.text_holds;
  valid = rw q r.valid;
}

Apart-retext :
    (e d : Entry) (t : Bytes) → length t ≡ length e.text → Apart e d → Apart (retext e t) d
Apart-retext e d t q a = record { in_idx = rw q a.in_idx; in_dat = rw q a.in_dat }

-- A list of which one record changes: what holds of the records apart from it.
PairwiseApart-retext :
    (before : List Entry) (e : Entry) (after : List Entry) (t : Bytes)
    → length t ≡ length e.text
    → PairwiseApart (before ++ (e ∷ after))
    → PairwiseApart (before ++ (retext e t ∷ after))
PairwiseApart-retext [] e after t q (a, p) = (All-map after (λ d. Apart-retext e d t q) a, p)
PairwiseApart-retext (x ∷ before) e after t q (ax, p) =
    let (a, b) = All-split (Apart x) before (e ∷ after) ax in
    (
      All-append (Apart x) before (retext e t ∷ after) a
          (Apart-symm (retext e t) x (Apart-retext e x t q (Apart-symm x e b.0)), b.1),
      PairwiseApart-retext before e after t q p,
    )

-- The key of no record changes.
All-retext {κ} :
    (P : Entry → Type κ) (before : List Entry) (e : Entry) (after : List Entry) (e' : Entry)
    → (P e → P e')
    → All P (before ++ (e ∷ after))
    → All P (before ++ (e' ∷ after))
All-retext P [] e after e' h (a, p) = (h a, p)
All-retext P (x ∷ before) e after e' h (ax, p) = (ax, All-retext P before e after e' h p)

DistinctKeys-retext :
    (before : List Entry) (e : Entry) (after : List Entry) (t : Bytes)
    → DistinctKeys (before ++ (e ∷ after))
    → DistinctKeys (before ++ (retext e t ∷ after))
DistinctKeys-retext [] e after t d = d
DistinctKeys-retext (x ∷ before) e after t (ax, d) = (
  All-retext (λ d. d.key ≢ x.key) before e after (retext e t) (λ h. h) ax,
  DistinctKeys-retext before e after t d,
)

module _ (f g : Bytes) (nhash : ℕ) (lists : ℕ → List Entry) (inv : Holds f g nhash lists) (a : ℕ)
    (from : a ≤ nhash) (before : List Entry) (e : Entry) (after : List Entry) (t : Bytes)
    (whole : lists a ≡ before ++ (e ∷ after)) (same : length t ≡ length e.text)
    (no_nul : Lacks 0 t) where
  abbrev e' : Entry
  e' = retext e t

  abbrev changed : List Entry
  changed = before ++ (e' ∷ after)

  abbrev pub dat_rewritten : Bytes
  dat_rewritten = overwrite g e.datoff (dat_bytes e')

  away : (es : List Entry) → ApartAll e es → DatAway e.datoff (length (dat_bytes e')) es
  away es = All-map es (λ d x. omega (arith, x.in_dat, length-dat_bytes e', same))

  apart :
      PairwiseApart (before ++ after)
      × ApartAll e (before ++ after)
      × Cross before after
      × PairwiseApart before
  apart = PairwiseApart-split before e after (subst PairwiseApart whole (inv.within a from))

  Linked-changed : Linked f dat_rewritten (a * ptr_sz) changed
  Linked-changed =
      let s =
        Seg-split f g (a * ptr_sz) before e after
          (subst (Linked f g (a * ptr_sz)) whole (inv.linked a from)) in
      let (ab, aa) = All-split (Apart e) before after apart.1 in
      Linked-join f dat_rewritten (a * ptr_sz) before (e' ∷ after)
        (Seg-frame_dat f g e.datoff (dat_bytes e') (a * ptr_sz) before e.off (away before ab) s.0)
        (
          RecAt-retext f e t same s.1,
          DatAt-write g e' no_nul,
          Seg-frame_dat f g e.datoff (dat_bytes e') e.off after 0 (away after aa) s.3,
        )

  Cross-changed : (k : ℕ) → k ≤ nhash → k ≢ a → Cross changed (lists k)
  Cross-changed k h ne =
      All-retext (λ d. ApartAll d (lists k)) before e after e'
        (All-map (lists k) (λ d. Apart-retext e d t same))
        (subst (λ es. Cross es (lists k)) whole (inv.across a k from h (λ q. ne (sym q))))

  entry_apart : (k : ℕ) → k ≤ nhash → k ≢ a → ApartAll e (lists k)
  entry_apart k h ne =
      (All-split (λ d. ApartAll d (lists k)) before (e ∷ after)
        (subst (λ es. Cross es (lists k)) whole (inv.across a k from h (λ q. ne (sym q))))).1.0

  -- New data of the same length keeps the invariant.
  pub Holds-rewritten : Holds f dat_rewritten nhash (put a changed lists)
  Holds-rewritten = record {
    has_chains = inv.has_chains;
    has_header = inv.has_header;
    linked =
        put_ind (λ k es. k ≤ nhash → Linked f dat_rewritten (k * ptr_sz) es) a changed lists
          (λ h. Linked-changed)
          (λ k ne h.
            Seg-frame_dat f g e.datoff (dat_bytes e') (k * ptr_sz) (lists k) 0
              (away (lists k) (entry_apart k h ne)) (inv.linked k h));
    behind =
        put_ind (λ k es. k ≤ nhash → All (λ d. header nhash ≤ d.off) es) a changed lists
          (λ h.
            All-retext (λ d. header nhash ≤ d.off) before e after e' (λ x. x)
              (subst (All (λ d. header nhash ≤ d.off)) whole (inv.behind a from)))
          (λ k ne h. inv.behind k h);
    within =
        put_ind (λ k es. k ≤ nhash → PairwiseApart es) a changed lists
          (λ h.
            PairwiseApart-retext before e after t same
              (subst PairwiseApart whole (inv.within a from)))
          (λ k ne h. inv.within k h);
    across = AcrossSlots-put nhash a changed lists inv.across Cross-changed;
    distinct = λ k h.
        put_ind (λ j es. j ≡ suc k → DistinctKeys es) a changed lists
          (λ q. DistinctKeys-retext before e after t (
            subst DistinctKeys whole
              (subst (λ i. DistinctKeys (lists i)) (sym q) (inv.distinct k h))))
          (λ j ne q. subst (λ i. DistinctKeys (lists i)) (sym q) (inv.distinct k h)) (suc k) refl;
  }
