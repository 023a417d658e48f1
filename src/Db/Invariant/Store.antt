-- ===== src/Db/Invariant/Store.antt =====
-- `db_store` binds the key to the text in the abstract view, unless its flag forbids it.
pub mod Replace
use my_study.Base.{
  ℕ, zero, suc, ◌+◌, ◌-◌, ◌*◌, ◌≤◌, ◌<◌, ◌≡◌, ◌≢◌, ◌∙◌, refl, sym, subst, ap, inl, inr, Bool, true,
  false, Option, none, some, List, [], ◌∷◌, ◌++◌, arith, length, length-append, if◌then◌else◌, ◌==◌,
  Bool-cases, le→leb, ==_refl,
}
use my_study.Base.Int.{pos}
use my_study.Base.Bytes.{Bytes}
use my_study.Posix.{File, overwrite}
use my_study.Posix.Transfers.{length-overwrite_inside}
use my_study.Db.State.{
  Db, Run, ok, fatal, Error, ptr_sz, ptr_max, LockCall, idxfd, free_off, datlen_min, datlen_max,
}
use my_study.Db.Returns.{Returns, returns, bind}
use my_study.Db.Api.{
  Flag, Stored, store, store_found, store_new, store_replace, append_record, reuse_record,
}
use my_study.Db.Layout.{Entry, Linked, first_off, last_ptr}
use my_study.Db.Layout.Read.{moved, loaded, readptr-PtrAt}
use my_study.Db.Layout.Split.{Linked-first}
use my_study.Db.Chain.{
  Without, Split, chain_cases, passed, passed_kept, bucket, at_bucket, find_and_lock-none,
  find_and_lock-some,
}
use my_study.Db.FreeList.{
  NoneFits, FreeSplit, free_cases, read_all, read_all_kept, at_free, findfree-none, findfree-some,
}
use my_study.Db.Invariant.{IsOpen, Holds, Enough, value, slot, hash-lt}
use my_study.Db.Invariant.Fetch.{
  Same, IsOpen-Same, stored, stored-Split, bucket-slot, Linked-at_bucket, value-Without,
}
use my_study.Db.Invariant.Insert.{Storable, Updated, append_record-Updated, reuse_record-Updated}
use my_study.Db.Invariant.Views.{updated}

Storable-Same :
    {db db' : Db} {key text : Bytes} → Same db db' → Storable db key text → Storable db' key text
Storable-Same s c = record {
  valid = rw s.dat c.valid;
  no_nul = c.no_nul;
  not_empty = c.not_empty;
  reach = rw s.idx c.reach;
}

-- The facts about a handle from which a new record is stored.
pub record Ready (db : Db) (lists : ℕ → List Entry) (key text : Bytes) (view : Bytes → Option Bytes)
    : Type 0 where
  pub is_open : IsOpen db lists
  pub chain : db.chainoff ≡ slot db key * ptr_sz
  pub absent : Without key (lists (slot db key))
  pub agree : (k : Bytes) → stored db k lists ≡ view k
  pub can : Storable db key text

Ready-Same :
    {db db' : Db} {lists : ℕ → List Entry} {key text : Bytes} {view : Bytes → Option Bytes}
    → Same db db'
    → db'.chainoff ≡ db.chainoff
    → Ready db lists key text view
    → Ready db' lists key text view
Ready-Same {db} {lists} {key} {view} s c r = record {
  is_open = IsOpen-Same s r.is_open;
  chain = rw s.nhash (c ∙ r.chain);
  absent = rw s.nhash r.absent;
  agree = rw s.nhash r.agree;
  can = Storable-Same s r.can;
}

append-Ready :
    {db : Db} {lists : ℕ → List Entry} {key text : Bytes} {view : Bytes → Option Bytes} (v : ℕ)
    → Ready db lists key text view
    → v ≡ first_off (lists (slot db key))
    → Returns (Updated key text view) (append_record key text (pos v) db)
append-Ready {db} {lists} {key} {text} {view} v r e =
    rw e (append_record-Updated db lists key text view r.is_open r.chain r.absent r.agree r.can)

module _ (fuel : ℕ) (db : Db) (lists : ℕ → List Entry) (key text : Bytes)
    (view : Bytes → Option Bytes) (r : Ready db lists key text view)
    (enough : Enough fuel lists) where
  store_new-Updated : Returns (Updated key text view) (store_new fuel key text db)
  unfolding store_new
  store_new-Updated =
      let v = first_off (lists (slot db key)) in
      let l =
        r.is_open.files.linked (slot db key) (hash-lt db.nhash key r.is_open.files.has_chains) in
      let h =
        Linked-first db.idx.bytes db.dat.bytes (slot db key * ptr_sz) (lists (slot db key)) l in
      let free = r.is_open.files.linked 0 (omega arith) in
      let at_chain = moved db (db.chainoff + ptr_sz) in
      let kept = read_all_kept (at_free at_chain) (lists 0) in
      rw (readptr-PtrAt db db.chainoff v (rw r.chain h))
        (elim (free_cases (length key) (length text + 1) (lists 0)) [
          | inl w ↦
              rw
                (findfree-none (length key) (length text + 1) fuel at_chain (lists 0) free w
                  (enough 0))
                (bind
                  (append-Ready v
                    (Ready-Same {db = db}
                      (record {
                        idx = kept.0;
                        dat = ap (λ (f : File). f.bytes) kept.1;
                        nhash = kept.3;
                        hashoff = kept.4;
                      })
                      kept.2 r)
                    (rw kept.3))
                  λ _ db' u. returns (
                    u.0,
                    IsOpen-Same {db = db'}
                        (record { idx = refl; dat = refl; nhash = refl; hashoff = refl }) u.1,
                    u.2,
                  ))
          | inr s ↦
              let short : length s.before < fuel =
                omega (
                  arith,
                  enough 0,
                  ap length s.whole,
                  length-append s.before (s.entry ∷ s.behind),
                ) in
              rw
                (findfree-some (length key) (length text + 1) fuel at_chain s.before s.entry
                  s.behind (subst (Linked db.idx.bytes db.dat.bytes 0) s.whole free) s.others s.same
                  short)
                (bind
                  (reuse_record-Updated at_chain lists key text view
                    (IsOpen-Same {db = db}
                      (record { idx = refl; dat = refl; nhash = refl; hashoff = refl }) r.is_open)
                    r.chain r.absent r.agree
                    (Storable-Same {db = db}
                      (record { idx = refl; dat = refl; nhash = refl; hashoff = refl }) r.can)
                    s)
                  λ _ db' u. returns (
                    u.0,
                    IsOpen-Same {db = db'}
                        (record { idx = refl; dat = refl; nhash = refl; hashoff = refl }) u.1,
                    u.2,
                  ))
        ])
