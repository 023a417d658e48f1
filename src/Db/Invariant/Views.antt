-- ===== src/Db/Invariant/Views.antt =====
-- The abstract view of a database, a map from keys to texts, after a record left a chain or came
-- to the front of one.
use my_study.Base.{
  ℕ, ◌≡◌, ◌≢◌, ◌∙◌, refl, sym, subst, ap, false, inl, inr, Option, none, some, List, [], ◌∷◌, ◌++◌,
  arith, if◌then◌else◌, Bool-cases,
}
use my_study.Base.Bytes.{Bytes, str_eq}
use my_study.Base.Bytes.Text.{str_eq-ne, str_eq→eq}
use my_study.Db.State.{Db}
use my_study.Db.Layout.{Entry}
use my_study.Db.Chain.{Without}
use my_study.Db.Invariant.{DistinctKeys, value, slot}
use my_study.Db.Invariant.Slots.{put, put_ind, DistinctKeys-split}
use my_study.Db.Invariant.Fetch.{value-Without, stored}

-- The map without a key, and with a key bound anew.
unfoldable pub removed : Bytes → (Bytes → Option Bytes) → Bytes → Option Bytes
removed key view k = if str_eq key k then none else view k

unfoldable pub updated : Bytes → Bytes → (Bytes → Option Bytes) → Bytes → Option Bytes
updated key text view k = if str_eq key k then some text else view k

-- Nothing changes where the key is not there.
pub removed-absent :
    (key k : Bytes) (view : Bytes → Option Bytes) → view key ≡ none → view k ≡ removed key view k
unfolding removed
removed-absent key k view h = elim (Bool-cases (str_eq key k)) [
  | inl e ↦ rw e (subst (λ k. view k ≡ none) (str_eq→eq key k e) h)
  | inr e ↦ rw e
]

value-skip :
    (k : Bytes) (before : List Entry) (e : Entry) (after : List Entry)
    → str_eq e.key k ≡ false
    → value k (before ++ (e ∷ after)) ≡ value k (before ++ after)
unfolding value
value-skip k [] e after h = rw h
value-skip k (d ∷ before) e after h =
    ap (λ o. if str_eq d.key k then some d.text else o) (value-skip k before e after h)

-- A list without the one record of its key.
value-remove :
    (key k : Bytes) (before : List Entry) (e : Entry) (after : List Entry)
    → e.key ≡ key
    → Without key (before ++ after)
    → value k (before ++ after) ≡ removed key (λ k. value k (before ++ (e ∷ after))) k
unfolding removed
value-remove key k before e after same w = elim (Bool-cases (str_eq key k)) [
  | inl h ↦ rw h (
      subst (λ k. value k (before ++ after) ≡ none) (str_eq→eq key k h)
        (value-Without key (before ++ after) w))
  | inr h ↦ rw h (sym (value-skip k before e after (rw same h)))
]

value-add :
    (key k : Bytes) (e : Entry) (es : List Entry)
    → e.key ≡ key
    → value k (e ∷ es) ≡ updated key e.text (λ k. value k es) k
unfolding value updated
value-add key k e es same = rw same

-- A record of the chain with other data.
value-replace :
    (key k : Bytes) (before : List Entry) (e : Entry) (after : List Entry) (text : Bytes)
    → e.key ≡ key
    → Without key before
    → value k (before ++ (record e { text = text } ∷ after))
      ≡ updated key text (λ k. value k (before ++ (e ∷ after))) k
unfolding value updated
value-replace key k [] e after text same w = ground (arith, same)
value-replace key k (d ∷ before) e after text same (ne, w) = elim (Bool-cases (str_eq d.key k)) [
  | inl h ↦
      let other : str_eq key k ≡ false = str_eq-ne key k (λ q. ne (str_eq→eq d.key k h ∙ sym q)) in
      rw (h, other)
  | inr h ↦ rw h (value-replace key k before e after text same w)
]

pub updated-removed :
    (key text k : Bytes) (view : Bytes → Option Bytes)
    → updated key text (removed key view) k ≡ updated key text view k
unfolding updated removed
updated-removed key text k view = elim (Bool-cases (str_eq key k)) [ inl h ↦ rw h | inr h ↦ rw h ]

pub Without-rest :
    (key : Bytes) (before : List Entry) (e : Entry) (after : List Entry)
    → e.key ≡ key
    → DistinctKeys (before ++ (e ∷ after))
    → Without key (before ++ after)
Without-rest key before e after same d =
    subst (λ k. Without k (before ++ after)) same (DistinctKeys-split before e after d).1

module _ (db : Db) (key : Bytes) (lists : ℕ → List Entry) where
  -- A key of another slot is another key.
  other_slot : (k : Bytes) → slot db key ≢ slot db k → str_eq key k ≡ false
  other_slot k ne = str_eq-ne key k (λ q. ne (ap (slot db) q))

  pub stored-removed :
      (before : List Entry) (e : Entry) (after : List Entry) (k : Bytes)
      → lists (slot db key) ≡ before ++ (e ∷ after)
      → e.key ≡ key
      → DistinctKeys (lists (slot db key))
      → value k (put (slot db key) (before ++ after) lists (slot db k))
        ≡ removed key (λ k. stored db k lists) k
  stored-removed before e after k whole same d =
      put_ind (λ j es. j ≡ slot db k → value k es ≡ removed key (λ k. stored db k lists) k)
        (slot db key) (before ++ after) lists
        (λ q.
          value-remove key k before e after same
            (Without-rest key before e after same (subst DistinctKeys whole d))
          ∙ unfold removed in
            ap (λ o. if str_eq key k then none else o) (ap (value k) (sym whole ∙ ap lists q)))
        (λ j ne q.
          unfold removed in rw (other_slot k (λ h. ne (q ∙ sym h))) (ap (value k) (ap lists q)))
        (slot db k) refl

  pub stored-updated :
      (e : Entry) (k : Bytes)
      → e.key ≡ key
      → value k (put (slot db key) (e ∷ lists (slot db key)) lists (slot db k))
        ≡ updated key e.text (λ k. stored db k lists) k
  stored-updated e k same =
      put_ind (λ j es. j ≡ slot db k → value k es ≡ updated key e.text (λ k. stored db k lists) k)
        (slot db key) (e ∷ lists (slot db key)) lists
        (λ q.
          value-add key k e (lists (slot db key)) same
          ∙ unfold updated in
            ap (λ o. if str_eq key k then some e.text else o) (ap (value k) (ap lists q)))
        (λ j ne q.
          unfold updated in rw (other_slot k (λ h. ne (q ∙ sym h))) (ap (value k) (ap lists q)))
        (slot db k) refl

  pub stored-replaced :
      (before : List Entry) (e : Entry) (after : List Entry) (text k : Bytes)
      → lists (slot db key) ≡ before ++ (e ∷ after)
      → e.key ≡ key
      → Without key before
      → value k (put (slot db key) (before ++ (record e { text = text } ∷ after)) lists (slot db k))
        ≡ updated key text (λ k. stored db k lists) k
  stored-replaced before e after text k whole same w =
      put_ind (λ j es. j ≡ slot db k → value k es ≡ updated key text (λ k. stored db k lists) k)
        (slot db key) (before ++ (record e { text = text } ∷ after)) lists
        (λ q.
          value-replace key k before e after text same w
          ∙ unfold updated in
            ap (λ o. if str_eq key k then some text else o) (ap (value k) (sym whole ∙ ap lists q)))
        (λ j ne q.
          unfold updated in rw (other_slot k (λ h. ne (q ∙ sym h))) (ap (value k) (ap lists q)))
        (slot db k) refl
