-- ===== src/Db/Invariant/Store/Replace.antt =====
-- `db_store` where the key is there and may be replaced; and the whole of `db_store`.
use my_study.Base.{
  ℕ, ◌+◌, ◌*◌, ◌<◌, ◌≡◌, ◌≢◌, ◌∙◌, refl, sym, subst, ap, inl, inr, true, false, Option, none, some,
  List, ◌∷◌, ◌++◌, arith, length, length-append, ==_refl, ne→==, le→leb, leb, ◌&&◌, Bool-cases,
  ==→eq, ◌==◌,
}
use my_study.Base.Bytes.{Bytes}
use my_study.Posix.{File}
use my_study.Db.State.{Db, and_then, ptr_sz, datlen_min, datlen_max, LockCall}
use my_study.Db.Returns.{Returns, returns, bind, bind_second}
use my_study.Db.Search.{find_and_lock}
use my_study.Db.Api.{Flag, Stored, store, store_found, store_replace}
use my_study.Db.Steps.{writedat-at}
use my_study.Db.Layout.{Entry, Linked, first_off, last_ptr, datlen_of}
use my_study.Db.Layout.Read.{readptr-PtrAt}
use my_study.Db.Layout.Split.{Linked-first}
use my_study.Db.Chain.{
  Without, Split, chain_cases, passed, passed_kept, bucket, at_bucket, find_and_lock-none,
  find_and_lock-some,
}
use my_study.Db.Invariant.{IsOpen, Enough, slot, hash-lt}
use my_study.Db.Invariant.Slots.{put}
use my_study.Db.Invariant.Fetch.{
  Same, IsOpen-Same, stored, stored-Split, bucket-slot, Linked-at_bucket, value-Without,
}
use my_study.Db.Invariant.Delete.{
  Wiped, found_db, dodelete_found, IsOpen-freed, freed, freed-stored, freed-lengths, freed-absent,
}
use my_study.Db.Invariant.Insert.{Storable, Updated}
use my_study.Db.Invariant.Rewrite.{retext, Holds-rewritten}
use my_study.Db.Invariant.Store.{Ready, Ready-Same, append-Ready, store_new-Updated}
use my_study.Db.Invariant.Views.{removed, updated, updated-removed, stored-replaced}

module _ (db : Db) (key text : Bytes) (lists : ℕ → List Entry) (o : IsOpen db lists)
    (s : Split key (lists (slot db key))) (can : Storable db key text) where
  abbrev found : Db
  found = found_db db key lists o s

  abbrev view : Bytes → Option Bytes
  view k = stored db k lists

  -- Data of the same length is written over the old data.
  overwrite-Updated :
      length text ≡ length s.entry.text
      → Returns (Updated key text view) (store_replace key text found)
  unfolding store_replace
  overwrite-Updated same =
      rw (same, ==_refl (datlen_of s.entry), writedat-at found text s.entry.datoff)
        (returns (
          put (slot db key) (s.before ++ (retext s.entry text ∷ s.behind)) lists,
          record {
            files =
                Holds-rewritten db.idx.bytes db.dat.bytes db.nhash lists o.files (slot db key)
                  (hash-lt db.nhash key o.files.has_chains) s.before s.entry s.behind text s.whole
                  same can.no_nul;
            table = o.table;
          },
          λ k.
              stored-replaced db key lists s.before s.entry s.behind text k s.whole s.same s.others,
        ))

  -- The old record is deleted, and a new one is appended.
  Ready-freed :
      (db' : Db)
      → Wiped
          (at_bucket db key true)
          s.entry
          (first_off s.behind)
          (first_off (lists 0))
          (last_ptr (bucket db key) s.before)
          tt
          db'
      → Ready db' (freed db key lists o s) key text (removed key view)
  Ready-freed db' w = record {
    is_open = IsOpen-freed db key lists o s db' w;
    chain = rw w.2 (w.4 ∙ bucket-slot db key o);
    absent = rw w.2 (freed-absent db key lists o s);
    agree = λ k. freed-stored db key lists o s db' k w.2;
    can = record {
      valid = rw (freed-lengths db key lists o s db' w).1 can.valid;
      no_nul = can.no_nul;
      not_empty = can.not_empty;
      reach = rw (freed-lengths db key lists o s db' w).0 can.reach;
    };
  }

  anew-Updated :
      length text ≢ length s.entry.text
      → Returns (Updated key text view) (store_replace key text found)
  unfolding store_replace
  anew-Updated differ =
      rw (ne→== (length text + 1) (datlen_of s.entry) (λ q. differ (omega (arith, q)))) (
        bind (dodelete_found db key lists o s) λ _ db' w.
          let r = Ready-freed db' w in
          let v = first_off (freed db key lists o s (slot db' key)) in
          let h =
            Linked-first db'.idx.bytes db'.dat.bytes (slot db' key * ptr_sz)
              (freed db key lists o s (slot db' key))
              (r.is_open.files.linked (slot db' key)
                (hash-lt db'.nhash key r.is_open.files.has_chains)) in
          rw (readptr-PtrAt db' db'.chainoff v (rw r.chain h)) (
            bind
              (append-Ready v
                (Ready-Same {db = db'}
                  (record { idx = refl; dat = refl; nhash = refl; hashoff = refl }) refl r)
                refl)
              λ _ db'' u. returns (
                u.0,
                IsOpen-Same {db = db''}
                    (record { idx = refl; dat = refl; nhash = refl; hashoff = refl }) u.1,
                λ k. u.2 k ∙ updated-removed key text k view,
              )))

  store_replace-Updated : Returns (Updated key text view) (store_replace key text found)
  store_replace-Updated = elim (Bool-cases (length text == length s.entry.text)) [
    | inl h ↦ overwrite-Updated (==→eq (length text) (length s.entry.text) h)
    | inr h ↦ anew-Updated (ne_of h)
  ]
    where
      ne_of : (length text == length s.entry.text) ≡ false → length text ≢ length s.entry.text
      ne_of h e = ground arith

-- The result that the flag and the presence of the key call for.
unfoldable pub outcome : Flag → Option Bytes → Stored
outcome (Flag.other _) there = Stored.einval
outcome Flag.db_insert (some _) = Stored.exists
outcome Flag.db_insert none = Stored.done
outcome Flag.db_replace (some _) = Stored.done
outcome Flag.db_replace none = Stored.enoent
outcome Flag.db_store there = Stored.done

-- The map after that result.
unfoldable pub view_after : Stored → Bytes → Bytes → (Bytes → Option Bytes) → Bytes → Option Bytes
view_after Stored.done key text view = updated key text view
view_after Stored.exists key text view = view
view_after Stored.enoent key text view = view
view_after Stored.einval key text view = view

-- What `db_store` promises.
abbrev pub StoredAs : Db → Bytes → Bytes → Flag → (ℕ → List Entry) → Stored → Db → Type 0
StoredAs db key text flag lists r db' =
    (r ≡ outcome flag (stored db key lists))
    × ((lists' : ℕ → List Entry) × IsOpen db' lists'
        × ((k : Bytes) → stored db' k lists' ≡ view_after r key text (λ k. stored db k lists) k))

module _ (fuel : ℕ) (db : Db) (key text : Bytes) (lists : ℕ → List Entry) (o : IsOpen db lists)
    (can : Storable db key text) (enough : Enough fuel lists) where
  -- The branches where the key is there.
  found-StoredAs :
      (flag : Flag) (s : Split key (lists (slot db key)))
      → ((n : ℕ) → flag ≢ Flag.other n)
      → Returns
          (StoredAs db key text flag lists)
          (store_found fuel key text flag true (found_db db key lists o s))
  unfolding store_found outcome view_after
  found-StoredAs Flag.db_insert s ne = returns (
    sym (ap (outcome Flag.db_insert) (stored-Split db key lists s)),
    (
      lists,
      IsOpen-Same {db = db} (record { idx = refl; dat = refl; nhash = refl; hashoff = refl }) o,
      λ k. refl,
    ),
  )
  found-StoredAs Flag.db_replace s ne =
      bind (store_replace-Updated db key text lists o s can)
        λ _ db' u. returns (sym (ap (outcome Flag.db_replace) (stored-Split db key lists s)), u)
  found-StoredAs Flag.db_store s ne =
      bind (store_replace-Updated db key text lists o s can) λ _ db' u. returns (refl, u)
  found-StoredAs (Flag.other n) s ne = absurd (ne n refl)

  -- The handle once the search has failed.
  abbrev absent_db : Db
  absent_db = passed (at_bucket db key true) (bucket db key) (lists (slot db key))

  absent_Same : Same db absent_db
  absent_Same =
      let kept = passed_kept (at_bucket db key true) (bucket db key) (lists (slot db key)) in
      record {
        idx = kept.0;
        dat = ap (λ (f : File). f.bytes) kept.1;
        nhash = kept.3;
        hashoff = kept.4;
      }

  absent_Ready :
      Without key (lists (slot db key)) → Ready absent_db lists key text (λ k. stored db k lists)
  absent_Ready w =
      let kept = passed_kept (at_bucket db key true) (bucket db key) (lists (slot db key)) in
      Ready-Same {db = at_bucket db key true}
        (record {
          idx = kept.0;
          dat = ap (λ (f : File). f.bytes) kept.1;
          nhash = kept.3;
          hashoff = kept.4;
        })
        kept.2
        (record {
          is_open =
              IsOpen-Same {db = db}
                (record { idx = refl; dat = refl; nhash = refl; hashoff = refl }) o;
          chain = bucket-slot db key o;
          absent = w;
          agree = λ k. refl;
          can = record {
            valid = can.valid;
            no_nul = can.no_nul;
            not_empty = can.not_empty;
            reach = can.reach;
          };
        })

  -- The branches where it is not.
  absent-StoredAs :
      (flag : Flag)
      → Without key (lists (slot db key))
      → ((n : ℕ) → flag ≢ Flag.other n)
      → Returns (StoredAs db key text flag lists) (store_found fuel key text flag false absent_db)
  unfolding store_found outcome view_after
  absent-StoredAs Flag.db_insert w ne =
      bind
        (store_new-Updated fuel absent_db lists key text (λ k. stored db k lists) (absent_Ready w)
          enough)
        λ _ db' u.
          returns (sym (ap (outcome Flag.db_insert) (value-Without key (lists (slot db key)) w)), u)
  absent-StoredAs Flag.db_replace w ne = returns (
    sym (ap (outcome Flag.db_replace) (value-Without key (lists (slot db key)) w)),
    (
      lists,
      IsOpen-Same {db = absent_db} (record { idx = refl; dat = refl; nhash = refl; hashoff = refl })
          (IsOpen-Same absent_Same o),
      λ k. rw absent_Same.nhash refl,
    ),
  )
  absent-StoredAs Flag.db_store w ne =
      bind
        (store_new-Updated fuel absent_db lists key text (λ k. stored db k lists) (absent_Ready w)
          enough)
        λ _ db' u. returns (refl, u)
  absent-StoredAs (Flag.other n) w ne = absurd (ne n refl)

  size_ok : (leb datlen_min (length text + 1) && leb (length text + 1) datlen_max) ≡ true
  size_ok = rw (
    le→leb datlen_min (length text + 1) (omega (arith, can.not_empty)),
    le→leb (length text + 1) datlen_max can.valid.data_fits,
  )

  -- The unlocking at the end changes no file.
  unlocked :
      (flag : Flag) (r : Stored) (db' : Db) (ls : List LockCall)
      → StoredAs db key text flag lists r db'
      → StoredAs db key text flag lists r (record db' { locks = ls })
  unlocked flag r db' ls (e, u) = (
    e,
    (
      u.0,
      IsOpen-Same {db = db'} (record { idx = refl; dat = refl; nhash = refl; hashoff = refl }) u.1,
      u.2,
    ),
  )

  -- The search and what follows it.
  search-StoredAs :
      (flag : Flag)
      → ((n : ℕ) → flag ≢ Flag.other n)
      → Returns (StoredAs db key text flag lists) (
          and_then (find_and_lock fuel key true db) (λ found. store_found fuel key text flag found))
  search-StoredAs flag ne = elim (chain_cases key (lists (slot db key))) [
    | inl w ↦
        rw
          (find_and_lock-none fuel key true db (lists (slot db key)) (Linked-at_bucket db key o) w
            (enough (slot db key)))
          (absent-StoredAs flag w ne)
    | inr s ↦
        let l =
          subst (Linked db.idx.bytes db.dat.bytes (bucket db key)) s.whole
            (Linked-at_bucket db key o) in
        let short : length s.before < fuel = omega (
          arith,
          enough (slot db key),
          ap length s.whole,
          length-append s.before (s.entry ∷ s.behind),
        ) in
        rw (find_and_lock-some fuel key true db s.before s.entry s.behind l s.others s.same short)
          (found-StoredAs flag s ne)
  ]

  -- `db_store` ends with the result that its flag and the presence of the key call for: 0, 1, or -1
  -- with ENOENT or EINVAL; afterwards the database is sound; it holds the same map with the key
  -- bound to the text where the result is 0, and the same map otherwise. The text and the key must
  -- fit the record format, and the index file must not have outgrown its pointers.
  pub store-outcome :
      (flag : Flag) → Returns (StoredAs db key text flag lists) (store fuel key text flag db)
  unfolding store
  store-outcome (Flag.other n) = unfold outcome view_after in returns (refl, (lists, o, λ k. refl))
  store-outcome Flag.db_insert = rw size_ok (
      bind_second (find_and_lock fuel key true db)
        (λ found. store_found fuel key text Flag.db_insert found) _
        (search-StoredAs Flag.db_insert (λ n q. cc))
        λ r db' u. returns (unlocked Flag.db_insert r db' _ u))
  store-outcome Flag.db_replace = rw size_ok (
      bind_second (find_and_lock fuel key true db)
        (λ found. store_found fuel key text Flag.db_replace found) _
        (search-StoredAs Flag.db_replace (λ n q. cc))
        λ r db' u. returns (unlocked Flag.db_replace r db' _ u))
  store-outcome Flag.db_store = rw size_ok (
      bind_second (find_and_lock fuel key true db)
        (λ found. store_found fuel key text Flag.db_store found) _
        (search-StoredAs Flag.db_store (λ n q. cc))
        λ r db' u. returns (unlocked Flag.db_store r db' _ u))
