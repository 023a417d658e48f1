-- ===== src/Db/Search.antt =====
-- The hash function of db.c and the two walks along a chain: the search for a key, and the search
-- of the free list for a record of the right size.
use my_study.Base.{
  ℕ, zero, suc, ◌+◌, ◌-◌, ◌*◌, ◌%◌, ◌^◌, Bool, true, false, ◌&&◌, [], ◌∷◌, ltb, ◌==◌, if◌then◌else◌,
  length,
}
use my_study.Base.Int.{ℤ, pos}
use my_study.Base.Bytes.{Bytes, str_eq}
use my_study.Db.State.{
  M, out_of_fuel, pure, ◌>>=◌, ◌>>◌, get, modify, call_lock, LockCall, idxfd, free_off, ptr_sz,
}
use my_study.Db.Records.{is_zero, readptr, readidx, writeptr}

abbrev pub ulong_mod : ℕ
ulong_mod = 2 ^ 64

-- `c * i` as an unsigned long: `char` is signed, so a byte from 128 on counts as `c - 256`.
abbrev pub char_times : ℕ → ℕ → ℕ
char_times c i = if ltb c 128 then c * i else (ulong_mod - (256 - c) * i % ulong_mod) % ulong_mod

unfoldable pub hash_loop : ℕ → ℕ → Bytes → ℕ
hash_loop hval i [] = hval
hash_loop hval i (c ∷ key) = hash_loop ((hval + char_times c i) % ulong_mod) (i + 1) key

-- `_db_hash`
unfoldable pub hash : ℕ → Bytes → ℕ
unfolding hash_loop
hash nhash key = hash_loop 0 1 key % nhash

-- The while loop of `_db_find_and_lock`; it returns the offset at which it stopped.
unfoldable pub find_loop : ℕ → Bytes → ℤ → M ℤ
find_loop zero key offset = λ db. out_of_fuel
find_loop (suc fuel) key offset = if is_zero offset then pure offset else do
  nextoffset ← readidx offset
  db ← get
  if str_eq db.idxbuf key
      then pure offset
      else modify (λ db. record db { ptroff = offset }) >> find_loop fuel key nextoffset

-- `_db_find_and_lock`; true where it returns 0.
unfoldable pub find_and_lock : ℕ → Bytes → Bool → M Bool
find_and_lock fuel key writelock = do
  modify λ db. record db {
    chainoff = hash db.nhash key * ptr_sz + db.hashoff;
    ptroff = pos (hash db.nhash key * ptr_sz + db.hashoff);
  }
  db ← get
  call_lock (
      if writelock
      then LockCall.writew_lock idxfd db.chainoff 1
      else LockCall.readw_lock idxfd db.chainoff 1)
  offset ← readptr db.ptroff
  found ← find_loop fuel key offset
  if is_zero found then pure false else pure true

-- The while loop of `_db_findfree`; it returns `saveoffset` and `offset`.
unfoldable pub free_loop : ℕ → ℕ → ℕ → ℤ → ℤ → M (ℤ × ℤ)
free_loop zero keylen datlen saveoffset offset = λ db. out_of_fuel
free_loop (suc fuel) keylen datlen saveoffset offset =
    if is_zero offset then pure (saveoffset, offset) else do
      nextoffset ← readidx offset
      db ← get
      if length db.idxbuf == keylen && db.datlen == datlen
          then pure (saveoffset, offset)
          else free_loop fuel keylen datlen offset nextoffset

-- `_db_findfree`; true where it returns 0.
unfoldable pub findfree : ℕ → ℕ → ℕ → M Bool
findfree fuel keylen datlen = do
  call_lock (LockCall.writew_lock idxfd free_off 1)
  offset ← readptr (pos free_off)
  (saveoffset, found) ← free_loop fuel keylen datlen (pos free_off) offset
  db ← get
  reused ← if is_zero found then pure false else (do writeptr saveoffset db.ptrval; pure true)
  call_lock (LockCall.un_lock idxfd free_off 1)
  pure reused
