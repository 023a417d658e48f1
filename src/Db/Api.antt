-- ===== src/Db/Api.antt =====
-- The operations of db.c that a client calls.
use my_study.Base.{
  ℕ, zero, suc, ◌+◌, ◌-◌, ◌*◌, Bool, true, false, ◌&&◌, Option, none, some, [], ◌∷◌, ◌++◌, leb,
  ◌==◌, if◌then◌else◌, length, replicate,
}
use my_study.Base.Int.{ℤ, pos, negsuc}
use my_study.Base.Bytes.{Bytes, pad_decimal}
use my_study.Db.State.{
  Db, M, Run, Error, out_of_fuel, pure, ◌>>=◌, ◌>>◌, get, modify, check, call_lock, LockCall, idxfd,
  free_off, ptr_sz, nhash_def, space, newline, datlen_min, datlen_max, seek_idx, write_idx,
}
use my_study.Db.Records.{at, at_end, readptr, readidx, readdat, writedat, writeidx, writeptr}
use my_study.Db.Search.{find_and_lock, findfree}

-- `_db_alloc`, for two files opened at their start.
unfoldable pub alloc : Bytes → Bytes → Bytes → Db
alloc name idx dat = record {
  idx = record { bytes = idx; offset = 0 };
  dat = record { bytes = dat; offset = 0 };
  idxbuf = [];
  datbuf = [];
  name = name;
  idxoff = 0;
  idxlen = 0;
  datoff = 0;
  datlen = 0;
  ptrval = pos 0;
  ptroff = pos 0;
  chainoff = 0;
  hashoff = ptr_sz;
  nhash = nhash_def;
  cnt_delok = 0;
  cnt_delerr = 0;
  cnt_fetchok = 0;
  cnt_fetcherr = 0;
  cnt_nextrec = 0;
  cnt_stor1 = 0;
  cnt_stor2 = 0;
  cnt_stor3 = 0;
  cnt_stor4 = 0;
  cnt_storerr = 0;
  locks = [];
}

-- `db_rewind`
unfoldable pub rewind : M (Unit {0})
rewind = do
  db ← get
  idxoff ← seek_idx (pos ((db.nhash + 1) * ptr_sz + 1))
  modify (λ db. record db { idxoff = idxoff })

-- The chain pointers of a new index file.
unfoldable pub zero_ptrs : ℕ → Bytes
zero_ptrs zero = []
zero_ptrs (suc n) = pad_decimal ptr_sz 0 ++ zero_ptrs n

-- The initialisation of an empty index file by `db_open`.
unfoldable pub init_index : M (Unit {0})
init_index = do
  call_lock (LockCall.writew_lock idxfd 0 0)
  db ← get
  if length db.idx.bytes == 0
      then write_idx (zero_ptrs (nhash_def + 1) ++ (newline ∷ []))
      else pure tt
  call_lock (LockCall.un_lock idxfd 0 0)

-- What `db_open` does with the opened files: O_CREAT and O_TRUNC ask for the initialisation.
unfoldable pub setup : Bool → Bool → M (Unit {0})
setup creat trunc = do if creat && trunc then init_index else pure tt; rewind

-- `.idx` and `.dat`
abbrev pub dot_idx : Bytes
dot_idx = b'.' ∷ b'i' ∷ b'd' ∷ b'x' ∷ []

abbrev pub dot_dat : Bytes
dot_dat = b'.' ∷ b'd' ∷ b'a' ∷ b't' ∷ []

-- `db_open`; `open_file` is open(2) with the flags given: what the file of a name then holds, or
-- none where it cannot be opened. Without both files `db_open` returns NULL.
unfoldable pub open_db : (Bytes → Option Bytes) → Bytes → Bool → Bool → Option (Run (Unit {0}))
open_db open_file pathname creat trunc = elim (open_file (pathname ++ dot_idx)) [
  | none ↦ none
  | some idx ↦ elim (open_file (pathname ++ dot_dat)) [
    | none ↦ none
    | some dat ↦ some (setup creat trunc (alloc (pathname ++ dot_dat) idx dat))
  ]
]

-- `db_fetch`
unfoldable pub fetch : ℕ → Bytes → M (Option Bytes)
fetch fuel key = do
  found ← find_and_lock fuel key false
  text ←
      if found
      then (do
        text ← readdat
        modify (λ db. record db { cnt_fetchok = db.cnt_fetchok + 1 })
        pure (some text))
      else (do modify (λ db. record db { cnt_fetcherr = db.cnt_fetcherr + 1 }); pure none)
  db ← get
  call_lock (LockCall.un_lock idxfd db.chainoff 1)
  pure text

-- `_db_dodelete`
unfoldable pub dodelete : M (Unit {0})
dodelete = do
  modify λ db. record db {
    datbuf = replicate (db.datlen - 1) space;
    idxbuf = replicate (length db.idxbuf) space;
  }
  call_lock (LockCall.writew_lock idxfd free_off 1)
  db ← get
  writedat db.datbuf (at db.datoff)
  freeptr ← readptr (pos free_off)
  let saveptr = db.ptrval
  writeidx db.idxbuf (at db.idxoff) freeptr
  writeptr (pos free_off) (pos db.idxoff)
  writeptr db.ptroff saveptr
  call_lock (LockCall.un_lock idxfd free_off 1)

-- `db_delete`; true where it returns 0, false where it returns -1.
unfoldable pub delete : ℕ → Bytes → M Bool
delete fuel key = do
  found ← find_and_lock fuel key true
  if found
      then dodelete >> modify (λ db. record db { cnt_delok = db.cnt_delok + 1 })
      else modify (λ db. record db { cnt_delerr = db.cnt_delerr + 1 })
  db ← get
  call_lock (LockCall.un_lock idxfd db.chainoff 1)
  pure found

-- DB_INSERT, DB_REPLACE, DB_STORE, and any other value.
pub data Flag : Type 0 where
  db_insert db_replace db_store : Flag
  other : ℕ → Flag

-- What `db_store` returns: 0; 1; -1 with errno ENOENT or EINVAL.
pub data Stored : Type 0 where
  done exists enoent einval : Stored

-- The new record at the ends of the files, in front of its chain.
unfoldable pub append_record : Bytes → Bytes → ℤ → M (Unit {0})
append_record key text ptrval = do
  writedat text at_end
  writeidx key at_end ptrval
  db ← get
  writeptr (pos db.chainoff) (pos db.idxoff)

-- The new record in the place of a free one.
unfoldable pub reuse_record : Bytes → Bytes → ℤ → M (Unit {0})
reuse_record key text ptrval = do
  db ← get
  writedat text (at db.datoff)
  db ← get
  writeidx key (at db.idxoff) ptrval
  db ← get
  writeptr (pos db.chainoff) (pos db.idxoff)

-- `db_store` where the key is not there.
unfoldable pub store_new : ℕ → Bytes → Bytes → M (Unit {0})
store_new fuel key text = do
  db ← get
  ptrval ← readptr (pos db.chainoff)
  reused ← findfree fuel (length key) (length text + 1)
  if reused
      then (do
        reuse_record key text ptrval
        modify (λ db. record db { cnt_stor2 = db.cnt_stor2 + 1 }))
      else (do
        append_record key text ptrval
        modify (λ db. record db { cnt_stor1 = db.cnt_stor1 + 1 }))

-- `db_store` where the key is there and may be replaced.
unfoldable pub store_replace : Bytes → Bytes → M (Unit {0})
store_replace key text = do
  db ← get
  if length text + 1 == db.datlen
      then (do
        writedat text (at db.datoff)
        modify (λ db. record db { cnt_stor4 = db.cnt_stor4 + 1 }))
      else (do
        dodelete
        db ← get
        ptrval ← readptr (pos db.chainoff)
        append_record key text ptrval
        modify (λ db. record db { cnt_stor3 = db.cnt_stor3 + 1 }))

abbrev count_storerr : Stored → M Stored
count_storerr r = modify (λ db. record db { cnt_storerr = db.cnt_storerr + 1 }) >> pure r

-- The branches of `db_store` behind the search.
unfoldable pub store_found : ℕ → Bytes → Bytes → Flag → Bool → M Stored
store_found fuel key text Flag.db_replace false = count_storerr Stored.enoent
store_found fuel key text flag false = store_new fuel key text >> pure Stored.done
store_found fuel key text Flag.db_insert true = count_storerr Stored.exists
store_found fuel key text flag true = store_replace key text >> pure Stored.done

-- `db_store`
unfoldable pub store : ℕ → Bytes → Bytes → Flag → M Stored
store fuel key text (Flag.other _) = pure Stored.einval
store fuel key text flag = do
  check (leb datlen_min (length text + 1) && leb (length text + 1) datlen_max)
      Error.invalid_data_length
  found ← find_and_lock fuel key true
  r ← store_found fuel key text flag found
  db ← get
  call_lock (LockCall.un_lock idxfd db.chainoff 1)
  pure r

-- An empty record's key is all blanks.
unfoldable pub all_blank : Bytes → Bool
all_blank [] = true
all_blank (c ∷ key) = c == space && all_blank key

-- The do loop of `db_nextrec`; false at the end of the index file.
unfoldable pub nextrec_loop : ℕ → M Bool
unfolding all_blank
nextrec_loop zero = λ db. out_of_fuel
nextrec_loop (suc fuel) = do
  next ← readidx (pos 0)
  db ← get
  elim next [
    | negsuc _ ↦ pure false
    | pos _ ↦ if all_blank db.idxbuf then nextrec_loop fuel else pure true
  ]

-- `db_nextrec`: the data, and what it copies to `key`.
unfoldable pub nextrec : ℕ → M (Option (Bytes × Bytes))
nextrec fuel = do
  call_lock (LockCall.readw_lock idxfd free_off 1)
  more ← nextrec_loop fuel
  r ←
      if more
      then (do
        db ← get
        text ← readdat
        modify (λ db. record db { cnt_nextrec = db.cnt_nextrec + 1 })
        pure (some (db.idxbuf, text)))
      else pure none
  call_lock (LockCall.un_lock idxfd free_off 1)
  pure r
