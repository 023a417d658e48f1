-- ===== src/Opend/Added.antt =====
-- What `client_add` does to the table.
use my_study.Base.{
  ℕ, zero, suc, ◌≡◌, ◌≢◌, refl, sym, ap, ◌∙◌, Bool, true, false, Option, none, some, List, [], ◌∷◌,
  ◌++◌, get_elem?, if◌then◌else◌, replicate,
}
use my_study.Base.Int.{ℤ}
use my_study.Opend.{
  Client, int_eq, no_fd, nalloc, client_alloc, one_later, add_loop, add_again, client_add,
}

-- The new client stands at an index where no entry or a free one stood, and every other entry is
-- as it was.
abbrev pub Takes : List Client → ℤ → ℕ → ℕ → List Client → Type 0
Takes cs fd uid i cs' =
    (get_elem? cs' i ≡ some (record { fd = fd; uid = uid }))
    × ((c : Client) → get_elem? cs i ≡ some c → int_eq c.fd no_fd ≡ true)
    × ((j : ℕ) (c : Client) → j ≢ i → get_elem? cs j ≡ some c → get_elem? cs' j ≡ some c)

pub data Added (cs : List Client) (fd : ℤ) (uid : ℕ) : Option (ℕ × List Client) → Type 0 where
  added : {i : ℕ} {cs' : List Client} → Takes cs fd uid i cs' → Added cs fd uid (some (i, cs'))

-- The loop finds an entry, or there is no free one.
LoopEnds : List Client → ℤ → ℕ → Option (ℕ × List Client) → Type 0
LoopEnds cs fd uid none = Unit
LoopEnds cs fd uid (some (i, cs')) = Takes cs fd uid i cs'

one_later-LoopEnds :
    (c : Client) (cs : List Client) (fd : ℤ) (uid : ℕ) (r : Option (ℕ × List Client))
    → LoopEnds cs fd uid r
    → LoopEnds (c ∷ cs) fd uid (one_later c r)
unfolding LoopEnds
one_later-LoopEnds c cs fd uid none h = tt
one_later-LoopEnds c cs fd uid (some (i, cs')) h = (h.0, h.1, others)
  where
    others :
        (j : ℕ) (d : Client)
        → j ≢ suc i
        → get_elem? (c ∷ cs) j ≡ some d
        → get_elem? (c ∷ cs') j ≡ some d
    others zero d ne e = e
    others (suc j) d ne e = h.2 j d (λ q. ne (ap (λ n. suc n) q)) e

add_loop-LoopEnds : (cs : List Client) (fd : ℤ) (uid : ℕ) → LoopEnds cs fd uid (add_loop cs fd uid)
unfolding LoopEnds add_loop
add_loop-LoopEnds [] fd uid = tt
add_loop-LoopEnds (c ∷ cs) fd uid = pick (int_eq c.fd no_fd) refl (add_loop-LoopEnds cs fd uid)
  where
    here : int_eq c.fd no_fd ≡ true → Takes (c ∷ cs) fd uid 0 (record { fd = fd; uid = uid } ∷ cs)
    here e = (refl, at_zero, others)
      where
        at_zero : (d : Client) → some c ≡ some d → int_eq d.fd no_fd ≡ true
        at_zero d q = let same : c ≡ d = cc in ap (λ (x : Client). int_eq x.fd no_fd) (sym same) ∙ e

        others :
            (j : ℕ) (d : Client)
            → j ≢ 0
            → get_elem? (c ∷ cs) j ≡ some d
            → get_elem? (record { fd = fd; uid = uid } ∷ cs) j ≡ some d
        others zero d ne q = absurd (ne refl)
        others (suc j) d ne q = q

    pick :
        (b : Bool)
        → int_eq c.fd no_fd ≡ b
        → LoopEnds cs fd uid (add_loop cs fd uid)
        → LoopEnds (c ∷ cs) fd uid (
            if b
            then some (0, record { fd = fd; uid = uid } ∷ cs)
            else one_later c (add_loop cs fd uid))
    pick true e ih = here e
    pick false e ih = one_later-LoopEnds c cs fd uid (add_loop cs fd uid) ih

get_elem?-append :
    (cs ds : List Client) (j : ℕ) (c : Client)
    → get_elem? cs j ≡ some c
    → get_elem? (cs ++ ds) j ≡ some c
get_elem?-append [] ds j c e = cc
get_elem?-append (d ∷ cs) ds zero c e = e
get_elem?-append (d ∷ cs) ds (suc j) c e = get_elem?-append cs ds j c e

-- Where a free entry stands, the loop finds one.
Finds : Option (ℕ × List Client) → Type 0
Finds none = ⊥
Finds (some r) = Unit

add_loop-Finds :
    (cs ds : List Client) (c : Client) (fd : ℤ) (uid : ℕ)
    → int_eq c.fd no_fd ≡ true
    → Finds (add_loop (cs ++ (c ∷ ds)) fd uid)
unfolding Finds add_loop
add_loop-Finds [] ds c fd uid e = rw e tt
add_loop-Finds (d ∷ cs) ds c fd uid e =
    pick (int_eq d.fd no_fd) (add_loop (cs ++ (c ∷ ds)) fd uid) (add_loop-Finds cs ds c fd uid e)
  where
    pick :
        (b : Bool) (r : Option (ℕ × List Client))
        → Finds r
        → Finds (
            if b then some (0, record { fd = fd; uid = uid } ∷ (cs ++ (c ∷ ds))) else one_later d r)
    pick true r h = tt
    pick false (some r) h = tt
    pick false none h = h

widened :
    (cs ds : List Client) (fd : ℤ) (uid : ℕ) (r : Option (ℕ × List Client))
    → LoopEnds (cs ++ ds) fd uid r
    → Finds r
    → Added cs fd uid r
unfolding LoopEnds Finds
widened cs ds fd uid none h f = absurd f
widened cs ds fd uid (some (i, cs')) h f = added (
  h.0,
  λ c e. h.1 c (get_elem?-append cs ds i c e),
  λ j c ne e. h.2 j c ne (get_elem?-append cs ds j c e),
)

alloc-Added :
    (cs : List Client) (fd : ℤ) (uid : ℕ) → Added cs fd uid (add_loop (client_alloc cs) fd uid)
unfolding client_alloc
alloc-Added cs fd uid =
    let free : Client = record { fd = no_fd; uid = 0 } in
    widened cs (replicate nalloc free) fd uid (add_loop (cs ++ replicate nalloc free) fd uid)
      (add_loop-LoopEnds (cs ++ replicate nalloc free) fd uid)
      (add_loop-Finds cs (replicate 9 free) free fd uid (unfold int_eq in refl))

again-Added :
    (cs : List Client) (fd : ℤ) (uid : ℕ) (r : Option (ℕ × List Client))
    → LoopEnds cs fd uid r
    → Added cs fd uid (add_again cs fd uid r)
unfolding add_again LoopEnds
again-Added cs fd uid none h = alloc-Added cs fd uid
again-Added cs fd uid (some (i, cs')) h = added h

found-Added :
    (ds cs : List Client) (fd : ℤ) (uid : ℕ) (r : Option (ℕ × List Client))
    → Added cs fd uid r
    → Added cs fd uid (add_again ds fd uid r)
unfolding add_again
found-Added ds cs fd uid _ (added t) = added t

-- `client_add` always finds a place, after at most one search that fails: the client stands at the
-- index that it returns, where no entry or a free one stood, and every other entry is as it was.
pub client_add-Added :
    (cs : List Client) (fd : ℤ) (uid : ℕ) → Added cs fd uid (client_add cs fd uid)
unfolding client_add
client_add-Added [] fd uid =
    found-Added (client_alloc []) [] fd uid (add_loop (client_alloc []) fd uid)
      (alloc-Added [] fd uid)
client_add-Added (c ∷ cs) fd uid =
    again-Added (c ∷ cs) fd uid (add_loop (c ∷ cs) fd uid) (add_loop-LoopEnds (c ∷ cs) fd uid)
