-- ===== src/Db/Examples.antt =====
-- The theorems on db.c at a database that holds one record.
use my_study.Base.{
  ℕ, suc, ◌+◌, ◌*◌, ◌<◌, ◌≤◌, ◌≡◌, refl, true, none, List, [], ◌∷◌, arith, length, subst, ◌++◌,
}
use my_study.Base.Int.{pos}
use my_study.Base.Bytes.{Bytes, decimal, pad_decimal, atol}
use my_study.Posix.{overwrite}
use my_study.Db.State.{Db, ok, ptr_sz, ptr_max, nhash_def, LockCall, idxfd, ◌>>◌}
use my_study.Db.Returns.{Returns}
use my_study.Db.Records.{record_text, readptr, writeptr}
use my_study.Base.Bytes.Decimal.{atol-pad_decimal}
use my_study.Db.Sequential.{Next, nextrec-first_live}
use my_study.Db.RoundTrip.{readptr-writeptr, write_then_read, readdat-writedat}
use my_study.Db.Layout.Read.{loaded, moved}
use my_study.Db.Layout.Write.{ptr_bytes}
use my_study.Db.Steps.{idx_written}
use my_study.Db.Search.{find_and_lock, hash, hash_loop}
use my_study.Db.Api.{zero_ptrs, Flag, alloc, fetch, delete, store, setup, nextrec}
use my_study.Db.Chain.{bucket, at_bucket, find_and_lock-some}
use my_study.Db.Layout.{Entry, IsRecord, Linked, end_of, first_off, last_ptr}
use my_study.Db.Invariant.{header, IsOpen, Holds, Enough, hash-lt}
use my_study.Db.Invariant.Slots.{put, put_ind, put_self}
use my_study.Db.Invariant.Append.{Appends, Holds-appended, idx_linked, dat_grown}
use my_study.Db.Invariant.Insert.{Storable, distinct-added}
use my_study.Db.Invariant.Open.{fresh, length-fresh, no_lists, fresh-IsOpen, setup-fresh}
use my_study.Db.Invariant.Fetch.{Fetched, stored, fetch-stored}
use my_study.Db.Invariant.Delete.{Deleted, delete-removed}
use my_study.Db.Invariant.Store.Replace.{StoredAs, store-outcome}

abbrev alpha : Bytes
alpha = b'a' ∷ b'l' ∷ []

abbrev two : Bytes
two = b'2' ∷ []

abbrev longer : Bytes
longer = b'3' ∷ b'4' ∷ []

-- A database that `db_open` has just created.
abbrev empty : Db
empty = alloc alpha fresh []

empty-IsOpen : IsOpen empty no_lists
unfolding alloc
empty-IsOpen = fresh-IsOpen empty refl refl refl

abbrev alpha_slot : ℕ
alpha_slot = suc (hash nhash_def alpha)

empty_files : Holds fresh [] nhash_def no_lists
unfolding alloc
empty_files = empty-IsOpen.files

abbrev entry : Entry
entry = record { off = length fresh; key = alpha; datoff = 0; text = two }

module _ (datoff datlen : ℕ) (size : length (record_text alpha datoff datlen) ≡ 7)
    (near : datoff ≤ 2) (some_data : 1 ≤ datlen) (little : datlen ≤ 3) where
  alpha_valid : IsRecord alpha datoff datlen
  alpha_valid = record {
    no_nul = (omega arith, (omega arith, tt));
    no_sep = (omega arith, (omega arith, tt));
    long_enough = omega (arith, size);
    short_enough = omega (arith, size);
    datoff_fits = omega (arith, near);
    has_data = some_data;
    data_fits = omega (arith, little);
  }

entry_valid : IsRecord alpha 0 2
unfolding record_text decimal
entry_valid = alpha_valid 0 2 refl (omega arith) (omega arith) (omega arith)

appends : Appends fresh [] nhash_def alpha_slot entry
appends = record {
  to = hash-lt nhash_def alpha (omega arith);
  at_idx_end = refl;
  at_dat_end = refl;
  fits = omega (arith, length-fresh);
  valid = entry_valid;
  no_nul = (omega arith, tt);
}

-- The database that holds the record.
abbrev full : Db
full =
    alloc alpha (idx_linked fresh [] nhash_def no_lists empty_files alpha_slot entry appends)
      (dat_grown fresh [] nhash_def no_lists empty_files alpha_slot entry appends)

abbrev lists : ℕ → List Entry
lists = put alpha_slot (entry ∷ []) no_lists

full-IsOpen : IsOpen full lists
unfolding alloc
full-IsOpen = record {
  files =
      Holds-appended fresh [] nhash_def no_lists empty_files alpha_slot entry appends
        (distinct-added empty no_lists alpha entry (λ k h. tt) refl tt);
  table = refl;
}

lists_short : Enough 2 lists
lists_short =
    put_ind (λ k es. length es < 2) alpha_slot (entry ∷ []) no_lists (omega arith)
      (λ k ne. omega arith)

reaches : length full.idx.bytes ≤ ptr_max
unfolding alloc overwrite decimal record_text pad_decimal zero_ptrs hash hash_loop
reaches = omega arith

-- Storing a longer text under the key that is there.
longer-Storable : Storable full alpha longer
unfolding alloc overwrite decimal record_text
longer-Storable = record {
  valid = alpha_valid 2 3 refl (omega arith) (omega arith) (omega arith);
  no_nul = (omega arith, (omega arith, tt));
  not_empty = omega arith;
  reach = reaches;
}

store-outcome_example :
    Returns
      (StoredAs full alpha longer Flag.db_replace lists)
      (store 2 alpha longer Flag.db_replace full)
store-outcome_example =
    store-outcome 2 full alpha longer lists full-IsOpen longer-Storable lists_short Flag.db_replace

fetch-stored_example : Returns (Fetched full alpha (stored full alpha lists)) (fetch 2 alpha full)
fetch-stored_example = fetch-stored 2 alpha full lists full-IsOpen lists_short

delete-removed_example : Returns (Deleted full alpha lists) (delete 2 alpha full)
delete-removed_example = delete-removed 2 alpha full lists full-IsOpen lists_short

setup-fresh_example :
    Returns
      (λ _ db.
        (db.idx.bytes ≡ fresh)
        × (db.idx.offset ≡ header nhash_def)
        × (db.locks ≡ LockCall.un_lock idxfd 0 0 ∷ LockCall.writew_lock idxfd 0 0 ∷ [])
        × ((lists : ℕ → List Entry) × IsOpen db lists
            × ((key : Bytes) → stored db key lists ≡ none)))
      (setup true true (alloc alpha [] []))
setup-fresh_example = setup-fresh alpha []

-- The full database, with the index file behind its table.
abbrev rewound : Db
rewound = record full { idx = record { bytes = full.idx.bytes; offset = length fresh } }

-- What the chain of the key holds.
chain : Linked full.idx.bytes full.dat.bytes (alpha_slot * ptr_sz) (entry ∷ [])
unfolding alloc
chain =
    subst (Linked full.idx.bytes full.dat.bytes (alpha_slot * ptr_sz))
      (put_self alpha_slot (entry ∷ []) no_lists)
      (full-IsOpen.files.linked alpha_slot (hash-lt nhash_def alpha (omega arith)))

one_record : length full.idx.bytes ≤ end_of entry
unfolding alloc overwrite decimal record_text pad_decimal zero_ptrs hash hash_loop
one_record = omega arith

nextrec-first_live_example : Returns (Next rewound (entry ∷ [])) (nextrec 2 rewound)
nextrec-first_live_example =
    nextrec-first_live 2 rewound (entry ∷ []) (refl, chain.1, (0, chain.3), one_record)
      (chain.2, tt) (omega arith)

readptr-writeptr_example :
    (writeptr (pos 7) (pos 967) >> readptr (pos 7)) empty
    ≡ ok (pos 967) (moved (idx_written empty 7 (ptr_bytes 967)) (7 + ptr_sz))
readptr-writeptr_example = readptr-writeptr empty 7 967 (omega arith)

readdat-writedat_example :
    Returns
      (λ r db'.
        (r ≡ (pos 0, two))
        × (db'.idxbuf ≡ alpha)
        × (db'.idxoff ≡ 967)
        × (db'.datoff ≡ 0)
        × (db'.datlen ≡ 2)
        × (db'.ptrval ≡ pos 0))
      (write_then_read alpha two 967 0 0 empty)
readdat-writedat_example =
    readdat-writedat empty alpha two 967 0 0 entry_valid (omega arith, tt) (omega arith)
      (omega arith) (omega arith)

atol-pad_decimal_example : atol (pad_decimal 7 967) ≡ pos 967
atol-pad_decimal_example = atol-pad_decimal 7 967 (omega arith)

at_bucket_chain : Linked full.idx.bytes full.dat.bytes (bucket full alpha) ([] ++ (entry ∷ []))
unfolding alloc hash hash_loop
at_bucket_chain = chain

find_and_lock-some_example :
    find_and_lock 1 alpha true full
    ≡ ok true (
        loaded
          (record (at_bucket full alpha true) { ptroff = pos (last_ptr (bucket full alpha) []) })
          entry
          (first_off []))
find_and_lock-some_example =
    find_and_lock-some 1 alpha true full [] entry [] at_bucket_chain tt refl (omega arith)
