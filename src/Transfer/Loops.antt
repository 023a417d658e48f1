-- ===== src/Transfer/Loops.antt =====
-- What readn and writen did when they return.
use my_study.Base.{
  ℕ, zero, suc, ◌-◌, ◌≤◌, ◌<◌, ◌≡◌, refl, ap, subst, inl, inr, Bool, true, false, Option, none,
  some, [], ◌∷◌, ◌++◌, length, length-append, ◌==◌, Bool-cases, arith, ne→==,
}
use my_study.Base.Bytes.{Bytes}
use my_study.Transfer.{
  Result, failed, done, read_step, readn_loop, readn, tread_ready, tread, treadn,
}

eq→== : (a : ℕ) → a ≡ 0 → (a == 0) ≡ true
eq→== a h = ground arith

module _ {S : Type 0} (read : ℕ → S → Option Bytes × S) (n : ℕ) (s₀ : S) where
  -- `got` arrived in reads that were each asked for all that was missing.
  pub data Received : Bytes → S → Type 0 where
    start : Received [] s₀
    next :
        {got : Bytes} {s s' : S} {b : ℕ} {bs : Bytes}
        → Received got s
        → read (n - length got) s ≡ (some (b ∷ bs), s')
        → Received (got ++ (b ∷ bs)) s'

  -- The ways in which `readn` ends: with all bytes, at the end of the file, with what came before an
  -- error, and with an error at once.
  pub data Ended : Result Bytes × S → Type 0 where
    full : {got : Bytes} {s : S} → Received got s → length got ≡ n → Ended (done got, s)
    at_eof :
        {got : Bytes} {s s' : S}
        → Received got s
        → length got < n
        → read (n - length got) s ≡ (some [], s')
        → Ended (done got, s')
    cut :
        {got : Bytes} {s s' : S}
        → Received got s
        → 0 < length got
        → length got < n
        → read (n - length got) s ≡ (none, s')
        → Ended (done got, s')
    refused : {s s' : S} → Received [] s → 0 < n → read (n - 0) s ≡ (none, s') → Ended (failed, s')

  -- read(2) delivers at most what it is asked for.
  abbrev pub Bounded : Type 0
  Bounded = (k : ℕ) (s s' : S) (got : Bytes) → read k s ≡ (some got, s') → length got ≤ k

  module _ (bounded : Bounded) where
    all_left : (n : ℕ) → (n - 0 == n) ≡ true
    all_left n = ground arith

    step-Ended :
        (got : Bytes) (s : S) (again : ℕ → Bytes → S → Result Bytes × S)
        → Received got s
        → length got < n
        → ((b : ℕ) (bs : Bytes) (s' : S)
            → read (n - length got) s ≡ (some (b ∷ bs), s')
            → Ended (again (n - length got - length (b ∷ bs)) (got ++ (b ∷ bs)) s'))
        → (r : Option Bytes × S) → read (n - length got) s ≡ r
        → Ended (read_step n (n - length got) got again r)
    unfolding read_step
    step-Ended [] s again r h ih (none, s') e = rw (all_left n) (refused r h e)
    step-Ended (c ∷ got) s again r h ih (none, s') e =
        rw (ne→== (n - suc (length got)) n (λ q. absurd (omega (arith, h, q))))
          (cut r (omega arith) h e)
    step-Ended got s again r h ih (some [], s') e = at_eof r h e
    step-Ended got s again r h ih (some (b ∷ bs), s') e = ih b bs s' e

    loop-Ended :
        (fuel : ℕ) (got : Bytes) (s : S)
        → Received got s
        → length got ≤ n
        → n - length got ≤ fuel
        → Ended (readn_loop read fuel n (n - length got) got s)
    unfolding readn_loop
    loop-Ended zero got s r h k =
        rw (eq→== (n - length got) (omega (arith, k))) (full r (omega (arith, h, k)))
    loop-Ended (suc fuel) got s r h k = elim (Bool-cases (n - length got == 0)) [
      | inl e ↦ rw e (full r (ground (arith, e, h)))
      | inr e ↦ rw e (
          step-Ended got s (readn_loop read fuel n) r (ground (arith, e, h))
            (λ b bs s' q.
              let le = bounded (n - length got) s s' (b ∷ bs) q in
              let l = length-append got (b ∷ bs) in
              let m : n - length got - suc (length bs) ≡ n - length (got ++ (b ∷ bs)) =
                omega (arith, l) in
              rw m (
                loop-Ended fuel (got ++ (b ∷ bs)) s' (next r q) (omega (arith, l, le))
                  (omega (arith, l, k))))
            (read (n - length got) s) refl)
    ]

  -- `readn` always ends, and in one of these ways, if read(2) delivers at most what it is asked for:
  -- all bytes have arrived; the file ended and the count is what came before; an error came after
  -- some bytes and the count is theirs; an error came first and the result is -1.
  pub readn-Ended : Bounded → Ended (readn read n s₀)
  unfolding readn
  readn-Ended bounded =
      let all : n - 0 ≡ n = omega arith in
      subst (λ k. Ended (readn_loop read n n k [] s₀)) all
        (loop-Ended bounded n [] s₀ start (omega arith) (omega arith))

module _ {S : Type 0} (select : S → Option Bool × S) (read : ℕ → S → Option Bytes × S) (n : ℕ)
    (s₀ : S) where
  tread_ready-bounded :
      Bounded read n s₀
      → (k : ℕ) (o : Option Bool × S) (s' : S) (got : Bytes) → tread_ready read k o ≡ (some got, s')
      → length got ≤ k
  unfolding tread_ready
  tread_ready-bounded b k (none, s) s' got e = cc
  tread_ready-bounded b k (some false, s) s' got e = cc
  tread_ready-bounded b k (some true, s) s' got e = b k s s' got e

  -- `got` arrived: select found the descriptor readable each time, and the read behind it was asked
  -- for all that was missing.
  pub data Arrived : Bytes → S → Type 0 where
    none_yet : Arrived [] s₀
    more :
        {got : Bytes} {s s₁ s' : S} {b : ℕ} {bs : Bytes}
        → Arrived got s
        → select s ≡ (some true, s₁)
        → read (n - length got) s₁ ≡ (some (b ∷ bs), s')
        → Arrived (got ++ (b ∷ bs)) s'

  -- Nothing comes of `k` bytes asked for: select fails, it times out, or the read fails.
  pub data Stops (k : ℕ) (s s' : S) : Type 0 where
    select_error : select s ≡ (none, s') → Stops k s s'
    timeout : select s ≡ (some false, s') → Stops k s s'
    read_error : {s₁ : S} → select s ≡ (some true, s₁) → read k s₁ ≡ (none, s') → Stops k s s'

  -- The ways in which `treadn` ends.
  pub data TreadnEnded : Result Bytes × S → Type 0 where
    all_there : {got : Bytes} {s : S} → Arrived got s → length got ≡ n → TreadnEnded (done got, s)
    end_of_file :
        {got : Bytes} {s s₁ s' : S}
        → Arrived got s
        → length got < n
        → select s ≡ (some true, s₁)
        → read (n - length got) s₁ ≡ (some [], s')
        → TreadnEnded (done got, s')
    stopped :
        {got : Bytes} {s s' : S}
        → Arrived got s
        → 0 < length got
        → length got < n
        → Stops (n - length got) s s'
        → TreadnEnded (done got, s')
    stopped_first : {s' : S} → 0 < n → Stops n s₀ s' → TreadnEnded (failed, s')

  readable :
      (k : ℕ) (s : S) (o : Option Bool × S) (got : Bytes) (s' : S)
      → select s ≡ o
      → tread_ready read k o ≡ (some got, s')
      → (s₁ : S) × ((select s ≡ (some true, s₁)) × (read k s₁ ≡ (some got, s')))
  unfolding tread_ready
  readable k s (none, s₁) got s' e r = cc
  readable k s (some false, s₁) got s' e r = cc
  readable k s (some true, s₁) got s' e r = (s₁, (e, r))

  no_bytes :
      (k : ℕ) (s : S) (o : Option Bool × S) (s' : S)
      → select s ≡ o
      → tread_ready read k o ≡ (none, s')
      → Stops k s s'
  unfolding tread_ready
  no_bytes k s (none, s₁) s' e r =
      let same : s₁ ≡ s' = cc in select_error (subst (λ t. select s ≡ (none, t)) same e)
  no_bytes k s (some false, s₁) s' e r =
      let same : s₁ ≡ s' = cc in timeout (subst (λ t. select s ≡ (some false, t)) same e)
  no_bytes k s (some true, s₁) s' e r = read_error e r

  Received-Arrived : (got : Bytes) (s : S) → Received (tread select read) n s₀ got s → Arrived got s
  unfolding tread
  Received-Arrived _ _ start = none_yet
  Received-Arrived _ _ (next {got} {s} {s'} {b} {bs} r e) =
      let found = readable (n - length got) s (select s) (b ∷ bs) s' refl e in
      more (Received-Arrived got s r) found.1.0 found.1.1

  -- With nothing received, the state is the first.
  first_state : (got : Bytes) (s : S) → Received (tread select read) n s₀ got s → got ≡ [] → s ≡ s₀
  first_state _ _ start e = refl
  first_state _ _ (next {got} {s} {s'} {b} {bs} r q) e =
      absurd (omega (arith, ap length e, length-append got (b ∷ bs)))

  Ended-TreadnEnded : (r : Result Bytes × S) → Ended (tread select read) n s₀ r → TreadnEnded r
  unfolding tread
  Ended-TreadnEnded _ (full {got} {s} r l) = all_there (Received-Arrived got s r) l
  Ended-TreadnEnded _ (at_eof {got} {s} {s'} r l e) =
      let found = readable (n - length got) s (select s) [] s' refl e in
      end_of_file (Received-Arrived got s r) l found.1.0 found.1.1
  Ended-TreadnEnded _ (cut {got} {s} {s'} r p l e) =
      stopped (Received-Arrived got s r) p l (no_bytes (n - length got) s (select s) s' refl e)
  Ended-TreadnEnded _ (refused {s} {s'} r p e) =
      let at_first : s ≡ s₀ = first_state [] s r refl in
      let all : n - 0 ≡ n = omega arith in
      stopped_first p (
        subst (λ t. Stops n t s') at_first
          (subst (λ k. Stops k s s') all (no_bytes (n - 0) s (select s) s' refl e)))

  -- `treadn` always ends if read(2) delivers at most what it is asked for, and in one of these ways,
  -- where every read stands behind a select that found the descriptor readable: all bytes have
  -- arrived; the file ended and the count is what came before; select failed, timed out or the read
  -- failed after some bytes, and the count is theirs; or that happened at once, and the result is -1.
  pub treadn-Ended : Bounded read n s₀ → TreadnEnded (treadn select read n s₀)
  unfolding treadn tread readn
  treadn-Ended b = Ended-TreadnEnded (treadn select read n s₀) (
      readn-Ended (tread select read) n s₀
        (λ k s s' got e. tread_ready-bounded b k (select s) s' got e))
