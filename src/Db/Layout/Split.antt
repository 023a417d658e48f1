-- ===== src/Db/Layout/Split.antt =====
-- Taking a chain apart at an entry, and joining two parts.
use my_study.Base.{ℕ, List, [], ◌∷◌, ◌++◌}
use my_study.Base.Bytes.{Bytes}
use my_study.Db.Layout.{PtrAt, Entry, RecAt, DatAt, Seg, Linked, Rest, first_off, last_ptr}

pub Linked-first :
    (f g : Bytes) (p : ℕ) (es : List Entry) → Linked f g p es → PtrAt f p (first_off es)
Linked-first f g p [] l = l
Linked-first f g p (e ∷ es) l = l.0

pub Linked-Rest : (f g : Bytes) (p : ℕ) (es : List Entry) → Linked f g p es → Rest f g es
Linked-Rest f g p [] l = tt
Linked-Rest f g p (e ∷ es) (h, r, t, l) = (r, t, l)

-- The entry of a chain, what leads to it, and what it leads to.
pub Seg-split :
    (f g : Bytes) (p : ℕ) (before : List Entry) (e : Entry) (es : List Entry)
    → Linked f g p (before ++ (e ∷ es))
    → Seg f g p before e.off × RecAt f e × DatAt g e × Linked f g e.off es
Seg-split f g p [] e es l = l
Seg-split f g p (d ∷ before) e es (h, r, t, l) =
    let (s, r', t', l') = Seg-split f g d.off before e es l in ((h, r, t, s), r', t', l')

-- A pointer to a chain in the place of another.
pub Linked-join :
    (f g : Bytes) (p : ℕ) (before es : List Entry)
    → Seg f g p before (first_off es)
    → Rest f g es
    → Linked f g p (before ++ es)
Linked-join f g p [] [] h r = h
Linked-join f g p [] (e ∷ es) h (r, t, l) = (h, r, t, l)
Linked-join f g p (d ∷ before) es (h, r, t, s) l = (h, r, t, Linked-join f g d.off before es s l)

-- The pointer at the end of a part of a chain.
pub Seg-last :
    (f g : Bytes) (p : ℕ) (es : List Entry) (v : ℕ) → Seg f g p es v → PtrAt f (last_ptr p es) v
Seg-last f g p [] v s = s
Seg-last f g p (e ∷ es) v (h, r, t, s) = Seg-last f g e.off es v s
