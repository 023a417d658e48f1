-- ===== src/Printd/Marked.antt =====
-- What client_thread of apue.3e/printer/printd.c takes for PostScript.
use my_study.Base.{
  ℕ, zero, suc, ◌≡◌, refl, ap, ◌∙◌, Bool, true, false, List, [], ◌∷◌, ◌++◌, take, drop, inl, inr,
  Bool-cases,
}
use my_study.Base.Bytes.{Bytes, str_eq}
use my_study.Base.Bytes.Text.{str_eq_refl, str_eq→eq}
use my_study.Printd.Spool.{Block, is_text, ps_mark}

-- The buffer starts with "%!PS".
abbrev pub StartsPs : Bytes → Type 0
StartsPs buf = (rest : Bytes) × (buf ≡ ps_mark ++ rest)

-- PR_TEXT is set where the buffer behind the first read does not start so.
pub data Marked : List Block → Bool → Type 0 where
  no_blocks : Marked [] false
  plain : {b : Block} {bs : List Block} → (StartsPs (b.bytes ++ b.stale) → ⊥) → Marked (b ∷ bs) true
  post_script :
      {b : Block} {bs : List Block} → StartsPs (b.bytes ++ b.stale) → Marked (b ∷ bs) false

append-take : (k : ℕ) (s : Bytes) → s ≡ take k s ++ drop k s
append-take zero s = refl
append-take (suc k) [] = refl
append-take (suc k) (c ∷ s) = ap (λ t. c ∷ t) (append-take k s)

pub is_text-Marked : (bs : List Block) → Marked bs (is_text bs)
unfolding is_text
is_text-Marked [] = no_blocks
is_text-Marked (b ∷ bs) = elim (Bool-cases (str_eq (take 4 (b.bytes ++ b.stale)) ps_mark)) [
  | inl e ↦
      let buf = b.bytes ++ b.stale in
      rw e (
        post_script (
          drop 4 buf,
          append-take 4 buf ∙ ap (λ s. s ++ drop 4 buf) (str_eq→eq (take 4 buf) ps_mark e),
        ))
  | inr e ↦
      rw e (
        plain (λ h. let same = ap (λ s. str_eq (take 4 s) ps_mark) h.1 ∙ str_eq_refl ps_mark in cc))
]
