-- ===== src/Db/Invariant/Insert.antt =====
-- `db_store` where the key is not there: the record is appended, or takes the place of a free one.
use my_study.Base.{
  ℕ, suc, ◌+◌, ◌*◌, ◌≤◌, ◌<◌, ◌≡◌, ◌∙◌, refl, sym, subst, ap, Option, List, ◌∷◌, ◌++◌, arith,
  length,
}
use my_study.Base.Int.{pos}
use my_study.Base.Bytes.{Bytes, pad_decimal}
use my_study.Base.Bytes.Text.{Lacks}
use my_study.Db.State.{Db, ptr_sz, ptr_max, LockCall, idxfd, free_off}
use my_study.Db.Returns.{Returns, returns}
use my_study.Db.Api.{append_record, reuse_record}
use my_study.Db.Records.{record_text}
use my_study.Db.Search.{hash}
use my_study.Db.Steps.{
  idx_written, writedat-at, writedat-at_end, writeidx-at, writeidx-at_end, writeptr-ok, data_at,
  data_at_end, index_at, index_at_end, length-record_text,
}
use my_study.Db.Layout.{Entry, PtrAt, IsRecord, Linked, RecAt, first_off, last_ptr, text_of}
use my_study.Db.Layout.Split.{Linked-first, Seg-split}
use my_study.Db.Layout.Read.{loaded}
use my_study.Db.Chain.{Without}
use my_study.Db.FreeList.{FreeSplit, at_free}
use my_study.Db.Invariant.{IsOpen, DistinctKeys, value, slot, hash-lt}
use my_study.Db.Invariant.Slots.{put, put_ne, put_ind}
use my_study.Db.Invariant.Fetch.{stored}
use my_study.Db.Invariant.Append.{Appends, Holds-appended}
use my_study.Db.Invariant.Move.{Moves, moved_lists, Holds-Moved}
use my_study.Db.Invariant.Move.Reuse.{Moved-chain_first}
use my_study.Db.Invariant.Views.{updated, stored-updated}

-- What a client may store: texts without NUL, a key without a separator, sizes that the record
-- format has room for, and an index file that its pointers still reach.
pub record Storable (db : Db) (key text : Bytes) : Type 0 where
  pub valid : IsRecord key (length db.dat.bytes) (length text + 1)
  pub no_nul : Lacks 0 text
  pub not_empty : 0 < length text
  pub reach : length db.idx.bytes ≤ ptr_max

-- Afterwards the database is sound, and holds `view` with the key bound to the text.
abbrev pub Updated : Bytes → Bytes → (Bytes → Option Bytes) → Unit {0} → Db → Type 0
Updated key text view _ db' =
    (lists' : ℕ → List Entry) × IsOpen db' lists'
    × ((k : Bytes) → stored db' k lists' ≡ updated key text view k)

updated_agree :
    (key text : Bytes) (v w : Bytes → Option Bytes) (k : Bytes)
    → ((k : Bytes) → v k ≡ w k)
    → updated key text v k ≡ updated key text w k
unfolding updated
updated_agree key text v w k h = rw (h k)

pub distinct-added :
    (db : Db) (lists : ℕ → List Entry) (key : Bytes) (e : Entry)
    → ((k : ℕ) → k < db.nhash → DistinctKeys (lists (suc k)))
    → e.key ≡ key
    → Without key (lists (slot db key))
    → (k : ℕ) → k < db.nhash
    → DistinctKeys (put (slot db key) (e ∷ lists (slot db key)) lists (suc k))
distinct-added db lists key e d same w k h =
    put_ind (λ j es. j ≡ suc k → DistinctKeys es) (slot db key) (e ∷ lists (slot db key)) lists
      (λ q. (
        subst (λ k. Without k (lists (slot db key))) (sym same) w,
        subst (λ i. DistinctKeys (lists i)) (sym q) (d k h),
      ))
      (λ j ne q. subst (λ i. DistinctKeys (lists i)) (sym q) (d k h)) (suc k) refl

module _ (db : Db) (lists : ℕ → List Entry) (key text : Bytes) (view : Bytes → Option Bytes)
    (o : IsOpen db lists) (chain : db.chainoff ≡ slot db key * ptr_sz)
    (absent : Without key (lists (slot db key))) (agree : (k : Bytes) → stored db k lists ≡ view k)
    (can : Storable db key text) where
  in_table : slot db key ≤ db.nhash
  in_table = hash-lt db.nhash key o.files.has_chains

  new_entry : Entry
  new_entry = record {
    off = length db.idx.bytes;
    key = key;
    datoff = length db.dat.bytes;
    text = text;
  }

  appends : Appends db.idx.bytes db.dat.bytes db.nhash (slot db key) new_entry
  unfolding new_entry
  appends = record {
    to = in_table;
    at_idx_end = refl;
    at_dat_end = refl;
    fits = can.reach;
    valid = can.valid;
    no_nul = can.no_nul;
  }

  head : PtrAt db.idx.bytes (slot db key * ptr_sz) (first_off (lists (slot db key)))
  head =
      Linked-first db.idx.bytes db.dat.bytes (slot db key * ptr_sz) (lists (slot db key))
        (o.files.linked (slot db key) in_table)

  pub append_record-Updated :
      Returns
        (Updated key text view)
        (append_record key text (pos (first_off (lists (slot db key)))) db)
  unfolding append_record new_entry appends
  append_record-Updated =
      let v = first_off (lists (slot db key)) in
      rw
        (
          writedat-at_end db text,
          writeidx-at_end (data_at_end db text) key v can.valid head.small,
          writeptr-ok (index_at_end (data_at_end db text) key v) db.chainoff (length db.idx.bytes)
              can.reach,
          chain,
        )
        (returns (
          put (slot db key) (new_entry ∷ lists (slot db key)) lists,
          record {
            files =
                Holds-appended db.idx.bytes db.dat.bytes db.nhash lists o.files (slot db key)
                  new_entry appends
                  (distinct-added db lists key new_entry o.files.distinct refl absent);
            table = o.table;
          },
          λ k. stored-updated db key lists new_entry k refl ∙ updated_agree key text _ view k agree,
        ))

  -- A free record of the right sizes, rewritten.
  module _ (s : FreeSplit (length key) (length text + 1) (lists 0)) where
    pub reused : Entry
    reused = record s.entry { key = key; text = text }

    sizes : (length s.entry.key ≡ length key) × (length s.entry.text ≡ length text)
    sizes = (ground (arith, s.same), ground (arith, s.same))

    free_split : RecAt db.idx.bytes s.entry × PtrAt db.idx.bytes s.entry.off (first_off s.behind)
    free_split =
        let l =
          Seg-split db.idx.bytes db.dat.bytes 0 s.before s.entry s.behind
            (subst (Linked db.idx.bytes db.dat.bytes 0) s.whole (o.files.linked 0 (omega arith))) in
        (l.1, Linked-first db.idx.bytes db.dat.bytes s.entry.off s.behind l.3)

    same_size : length (record_text key s.entry.datoff (length text + 1)) ≡ length (text_of s.entry)
    same_size = rw sizes.1 (
        omega (
          arith,
          sizes.0,
          length-record_text key s.entry.datoff (length text + 1),
          length-record_text s.entry.key s.entry.datoff (length text + 1),
        ))

    reused-IsRecord : IsRecord key s.entry.datoff (length text + 1)
    reused-IsRecord =
        let r = free_split.0.valid in
        record {
          no_nul = can.valid.no_nul;
          no_sep = can.valid.no_sep;
          long_enough = omega (arith, r.long_enough, same_size);
          short_enough = omega (arith, r.short_enough, same_size);
          datoff_fits = r.datoff_fits;
          has_data = omega arith;
          data_fits = can.valid.data_fits;
        }

    moves : Moves db.nhash lists 0 (slot db key) s.before s.entry s.behind reused
    unfolding reused
    moves = record {
      from = omega arith;
      to = in_table;
      differ = omega arith;
      whole = s.whole;
      in_place = record { off = refl; datoff = refl; size = same_size; datlen = sym sizes.1 };
      valid = reused-IsRecord;
      no_nul = can.no_nul;
    }

    abbrev reused_lists : ℕ → List Entry
    reused_lists = moved_lists lists 0 (slot db key) s.before reused s.behind

    reused-distinct : (k : ℕ) → k < db.nhash → DistinctKeys (reused_lists (suc k))
    unfolding reused
    reused-distinct k h =
        put_ind (λ j es. j ≡ suc k → DistinctKeys es) (slot db key) (reused ∷ lists (slot db key))
          (put 0 (s.before ++ s.behind) lists)
          (λ q. (absent, subst (λ i. DistinctKeys (lists i)) (sym q) (o.files.distinct k h)))
          (λ j ne q.
            subst DistinctKeys
              (sym (put_ne 0 (s.before ++ s.behind) lists j (λ z. absurd (omega (arith, z, q)))))
              (subst (λ i. DistinctKeys (lists i)) (sym q) (o.files.distinct k h)))
          (suc k) refl

    reused-stored : (k : Bytes) → value k (reused_lists (slot db k)) ≡ updated key text view k
    unfolding reused
    reused-stored k =
        let rest = put 0 (s.before ++ s.behind) lists in
        let there : (j : ℕ) → rest (suc j) ≡ lists (suc j) =
          λ j. put_ne 0 (s.before ++ s.behind) lists (suc j) (omega arith) in
        subst
          (λ es.
            value k (put (slot db key) (reused ∷ es) rest (slot db k))
            ≡ updated key text (λ k. stored db k rest) k)
          (there (hash db.nhash key)) (stored-updated db key rest reused k refl)
        ∙ updated_agree key text (λ k. stored db k rest) view k
            (λ k. ap (value k) (there (hash db.nhash k)) ∙ agree k)

    -- The handle once `_db_findfree` has unlinked the record.
    abbrev pub unlinked_db : Db
    unlinked_db =
        record (idx_written (loaded (at_free db) s.entry (first_off s.behind))
          (last_ptr free_off s.before) (pad_decimal ptr_sz (first_off s.behind))) {
            locks =
                LockCall.un_lock idxfd free_off 1
                ∷ LockCall.writew_lock idxfd free_off 1
                ∷ db.locks;
          }

    pub reuse_record-Updated :
        Returns
          (Updated key text view)
          (reuse_record key text (pos (first_off (lists (slot db key)))) unlinked_db)
    unfolding reuse_record reused
    reuse_record-Updated =
        let v = first_off (lists (slot db key)) in
        let d = data_at unlinked_db text s.entry.datoff in
        rw
          (
            writedat-at unlinked_db text s.entry.datoff,
            writeidx-at d key v reused-IsRecord head.small s.entry.off,
            writeptr-ok (index_at d key v s.entry.off) db.chainoff s.entry.off free_split.0.fits,
            chain,
          )
          (returns (
            reused_lists,
            record {
              files =
                  Holds-Moved db.idx.bytes db.dat.bytes db.nhash lists o.files 0 (slot db key)
                    s.before s.entry s.behind reused moves _ _
                    (Moved-chain_first db.idx.bytes db.dat.bytes db.nhash lists o.files 0
                      (slot db key) s.before s.entry s.behind reused moves)
                    reused-distinct;
              table = o.table;
            },
            reused-stored,
          ))
