-- ===== src/Db/Layout/Redirect.antt =====
-- Writing the chain pointer at the end of a part of a chain leads that part elsewhere.
use my_study.Base.{ℕ, ◌+◌, ◌≤◌, inr, List, [], ◌∷◌, arith, All-map}
use native.Mathlib.Nat.{le_refl}
use my_study.Base.Bytes.{Bytes}
use my_study.Posix.{overwrite}
use my_study.Db.State.{ptr_sz, ptr_max}
use my_study.Db.Layout.{Entry, Seg, end_of, last_ptr}
use my_study.Db.Layout.Frame.{PtrAt-frame, RecAt-frame}
use my_study.Db.Layout.Write.{
  ptr_bytes, length-ptr_bytes, PtrAt-write, StartsOutside, last_ptr-Outside,
}

-- No two of the entries share a byte of the index file.
abbrev pub IdxApart : List Entry → Type 0
IdxApart [] = Unit
IdxApart (e ∷ es) = StartsOutside e.off (end_of e) es × IdxApart es

pub Seg-redirect :
    (f g : Bytes) (p : ℕ) (es : List Entry) (v w : ℕ)
    → w ≤ ptr_max
    → StartsOutside p (p + ptr_sz) es
    → IdxApart es
    → Seg f g p es v
    → Seg (overwrite f (last_ptr p es) (ptr_bytes w)) g p es w
Seg-redirect f g p [] v w h out apart s = PtrAt-write f p w h
Seg-redirect f g p (e ∷ es) v w h (oe, out) (ae, apart) (q, r, t, s) =
    let a = last_ptr e.off es in
    let n = length-ptr_bytes w h in
    (
      PtrAt-frame f a (ptr_bytes w) p e.off
          (omega (arith, last_ptr-Outside p (p + ptr_sz) e.off es oe out)) q,
      RecAt-frame f a (ptr_bytes w) e
          (omega (
            arith,
            last_ptr-Outside (e.off + ptr_sz) (end_of e) e.off es (inr (le_refl (e.off + ptr_sz)))
                (All-map es (λ d o. omega arith) ae),
          ))
          r,
      t,
      Seg-redirect f g e.off es v w h (All-map es (λ d o. omega (arith, o)) ae) apart s,
    )
