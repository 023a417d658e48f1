-- ===== src/Transfer/Writes.antt =====
-- What writen did when it returns.
use my_study.Base.{
  ℕ, zero, suc, ◌+◌, ◌-◌, ◌≤◌, ◌<◌, ◌≡◌, refl, subst, inl, inr, true, Option, none, some, length,
  length-drop, drop-drop, ◌==◌, drop, Bool-cases, arith, ==→eq, ne→==, ==_refl,
}
use my_study.Base.Bytes.{Bytes}
use my_study.Transfer.{Result, failed, done, write_step, writen_loop, writen}

eq→== : (a : ℕ) → a ≡ 0 → (a == 0) ≡ true
eq→== a h = ground arith

module _ {S : Type 0} (write : Bytes → S → Option ℕ × S) (bytes : Bytes) (s₀ : S) where
  -- The first `k` bytes were taken by writes that were each given all that was left.
  pub data Sent : ℕ → S → Type 0 where
    start : Sent 0 s₀
    next :
        {k m : ℕ} {s s' : S}
        → Sent k s
        → write (drop k bytes) s ≡ (some (suc m), s')
        → Sent (k + suc m) s'

  -- The ways in which `writen` ends: with all bytes, at a write that takes none, with what came
  -- before an error, and with an error at once.
  pub data Written : Result ℕ × S → Type 0 where
    full : {s : S} → Sent (length bytes) s → Written (done (length bytes), s)
    stuck :
        {k : ℕ} {s s' : S}
        → Sent k s
        → k < length bytes
        → write (drop k bytes) s ≡ (some 0, s')
        → Written (done k, s')
    cut :
        {k : ℕ} {s s' : S}
        → Sent k s
        → 0 < k
        → k < length bytes
        → write (drop k bytes) s ≡ (none, s')
        → Written (done k, s')
    refused :
        {s s' : S}
        → Sent 0 s
        → 0 < length bytes
        → write (drop 0 bytes) s ≡ (none, s')
        → Written (failed, s')

  -- write(2) takes at most what it is given.
  abbrev pub BoundedWrite : Type 0
  BoundedWrite = (d : Bytes) (s s' : S) (k : ℕ) → write d s ≡ (some k, s') → k ≤ length d

  left : (k : ℕ) → length (drop k bytes) ≡ length bytes - k
  left k = length-drop k bytes

  count : (k : ℕ) → k ≤ length bytes → length bytes - length (drop k bytes) ≡ k
  count k h = omega (arith, left k)

  step-Written :
      (k : ℕ) (s : S) (again : Bytes → S → Result ℕ × S)
      → Sent k s
      → k < length bytes
      → ((m : ℕ) (s' : S)
          → write (drop k bytes) s ≡ (some (suc m), s')
          → Written (again (drop (suc m) (drop k bytes)) s'))
      → (r : Option ℕ × S) → write (drop k bytes) s ≡ r
      → Written (write_step (length bytes) (drop k bytes) again r)
  unfolding write_step
  step-Written k s again t h ih (some zero, s') e = rw (count k (omega arith)) (stuck t h e)
  step-Written k s again t h ih (some (suc m), s') e = ih m s' e
  step-Written zero s again t h ih (none, s') e = rw (==_refl (length bytes)) (refused t h e)
  step-Written (suc k) s again t h ih (none, s') e =
      rw
        (
          ne→== (length (drop (suc k) bytes)) (length bytes)
              (λ q. absurd (omega (arith, q, left (suc k), h))),
          count (suc k) (omega arith),
        )
        (cut t (omega arith) h e)

  module _ (bounded : BoundedWrite) where
    loop-Written :
        (fuel k : ℕ) (s : S)
        → Sent k s
        → k ≤ length bytes
        → length bytes - k ≤ fuel
        → Written (writen_loop write fuel (length bytes) (drop k bytes) s)
    unfolding writen_loop
    loop-Written zero k s t h f =
        let e : k ≡ length bytes = omega (arith, h, f) in
        rw (eq→== (length (drop k bytes)) (omega (arith, left k, e)))
          (full (subst (λ k. Sent k s) e t))
    loop-Written (suc fuel) k s t h f = elim (Bool-cases (length (drop k bytes) == 0)) [
      | inl b ↦
          let z = ==→eq (length (drop k bytes)) 0 b in
          let e : k ≡ length bytes = omega (arith, h, left k, z) in
          rw b (full (subst (λ k. Sent k s) e t))
      | inr b ↦ rw b (
          step-Written k s (writen_loop write fuel (length bytes)) t (ground (arith, b, left k, h))
            (λ m s' q.
              let le = bounded (drop k bytes) s s' (suc m) q in
              rw (drop-drop k (suc m) bytes) (
                loop-Written fuel (k + suc m) s' (next t q) (omega (arith, left k, le, h))
                  (omega (arith, f))))
            (write (drop k bytes) s) refl)
    ]

  -- `writen` always ends if write(2) takes at most what it is given: all bytes were taken, in order;
  -- a write took none and the count is what went before; an error came after some bytes and the
  -- count is theirs; an error came first and the result is -1.
  pub writen-Written : BoundedWrite → Written (writen write bytes s₀)
  unfolding writen
  writen-Written bounded =
      loop-Written bounded (length bytes) 0 s₀ start (omega arith) (omega arith)
