-- ===== src/Opend/Deleted.antt =====
-- What `client_del` does to the table.
use my_study.Base.{
  ℕ, zero, suc, ◌≡◌, ◌≢◌, refl, ap, Bool, true, false, Option, none, some, List, [], ◌∷◌, get_elem?,
  All, if◌then◌else◌,
}
use my_study.Base.Int.{ℤ}
use my_study.Opend.{Client, int_eq, no_fd, behind, client_del}

-- The entry at an index had the descriptor and is free, and every other entry is as it was.
abbrev pub Frees : List Client → ℤ → List Client → ℕ → Client → Type 0
Frees cs fd cs' i c =
    (get_elem? cs i ≡ some c)
    × (int_eq c.fd fd ≡ true)
    × (get_elem? cs' i ≡ some (record c { fd = no_fd }))
    × ((j : ℕ) → j ≢ i → get_elem? cs' j ≡ get_elem? cs j)

-- An entry is freed, or there is none to free.
abbrev pub Deleted : List Client → ℤ → Option (List Client) → Type 0
Deleted cs fd none = All (λ (c : Client). int_eq c.fd fd ≡ false) cs
Deleted cs fd (some cs') = (i : ℕ) × ((c : Client) × Frees cs fd cs' i c)

behind-Deleted :
    (c : Client) (cs : List Client) (fd : ℤ) (r : Option (List Client))
    → int_eq c.fd fd ≡ false
    → Deleted cs fd r
    → Deleted (c ∷ cs) fd (behind c r)
behind-Deleted c cs fd none e h = (e, h)
behind-Deleted c cs fd (some cs') e (i, (d, frees)) =
    (suc i, (d, (frees.0, frees.1, frees.2, others)))
  where
    others : (j : ℕ) → j ≢ suc i → get_elem? (c ∷ cs') j ≡ get_elem? (c ∷ cs) j
    others zero ne = refl
    others (suc j) ne = frees.3 j (λ q. ne (ap (λ n. suc n) q))

-- client_del frees the entry of a client with this descriptor, one and no other, and ends the process
-- only where no client has it.
pub client_del-Deleted : (cs : List Client) (fd : ℤ) → Deleted cs fd (client_del cs fd)
unfolding client_del
client_del-Deleted [] fd = tt
client_del-Deleted (c ∷ cs) fd = on (int_eq c.fd fd) refl (client_del-Deleted cs fd)
  where
    on :
        (b : Bool)
        → int_eq c.fd fd ≡ b
        → Deleted cs fd (client_del cs fd)
        → Deleted
            (c ∷ cs)
            fd
            (if b then some (record c { fd = no_fd } ∷ cs) else behind c (client_del cs fd))
    on true e h = (zero, (c, (refl, e, refl, others)))
      where
        others :
            (j : ℕ) → j ≢ zero → get_elem? (record c { fd = no_fd } ∷ cs) j ≡ get_elem? (c ∷ cs) j
        others zero ne = absurd (ne refl)
        others (suc j) ne = refl
    on false e h = behind-Deleted c cs fd (client_del cs fd) e h
