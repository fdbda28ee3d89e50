-- ===== src/Transactions/Session/Locking/Calls.antt =====
-- engine/transactions/session.py: what the locking proxies keep, the executor's calls keep.
use soup_db.Common.{Option, none, some, List, [], ◌∷◌, Result, ok, raise}
use soup_db.Common.Bytes.{Bytes}
use soup_db.Common.Dict.{Key}
use soup_db.Common.Exec.{Exec, pure, continue, ◌>>=◌, ◌>>◌}
use soup_db.Transactions.LockMode.{LockMode, shared, exclusive}
use soup_db.Transactions.Catalog.{Catalog}
use soup_db.Transactions.Session.Undo.{Entry, undo_insert, undo_remove}
use soup_db.Transactions.Session.Locking.{
  Resource, table_of, record_of, Session, Act, in_catalog, lock, journal_append, locked_insert,
  locked_fetch, remove_found, locked_remove, locked_scan, lock_shared,
}
use soup_db.Transactions.Session.Locking.Programs.{
  Call, insert, fetch, remove, scan, share, index_insert, index_remove, insert_document,
  remove_document, fail, run_call, run_calls,
}

module _ {S T P I : Type 0} ⦃t : Key T⦄ ⦃p : Key P⦄ (c : Catalog S T P I)
    (Holds : Session S T P → Type 0) where
  abbrev pub Preserves : {A : Type 0} → Act c A → Type 0
  Preserves m = (s : Session S T P) → Holds s → Holds (m s).1

  -- The three kinds of steps of the proxies keep what holds of a session.
  pub record IsKept : Type 0 where
    pub lock_keeps : (q : Resource T P) (mode : LockMode) → Preserves (lock c q mode)
    pub catalog_keeps :
        (s : Session S T P) (catalog : S) → Holds s → Holds (record s { catalog = catalog })
    pub append_keeps : (entry : Entry T P) → Preserves (journal_append c entry)

  >>=-Preserves :
      {A B : Type 0} (m : Act c A) (f : A → Act c B)
      → Preserves m
      → ((a : A) → Preserves (f a))
      → Preserves (m >>= f)
  >>=-Preserves {A} {B} m f h k s r = after (m s).0 (m s).1 (h s r)
    where
      after : (result : Result A) (s' : Session S T P) → Holds s' → Holds (continue result f s').1
      after (ok a) s' r' = k a s' r'
      after (raise e) s' r' = r'

  module _ (kept : IsKept) where
    pub in_catalog-Preserves : {A : Type 0} (m : Exec S A) → Preserves (in_catalog c m)
    unfolding in_catalog
    in_catalog-Preserves m s h = kept.catalog_keeps s (m s.catalog).1 h

    remove_found-Preserves :
        (table : T) (rid : P) (found : Option Bytes) → Preserves (remove_found c table rid found)
    unfolding remove_found
    remove_found-Preserves table rid none = λ s h. h
    remove_found-Preserves table rid (some payload) =
        >>=-Preserves (in_catalog c (c.remove table rid)) _
          (in_catalog-Preserves (c.remove table rid))
          (λ _.
            >>=-Preserves (journal_append c (undo_remove table rid payload)) _
              (kept.append_keeps (undo_remove table rid payload)) (λ _ s h. h))

    pub insert_rest-Preserves :
        (table : T) (payload : Bytes)
        → Preserves (
            in_catalog c (c.insert table payload)
            >>= (λ rid. journal_append c (undo_insert table rid) >> pure rid))
    insert_rest-Preserves table payload =
        >>=-Preserves (in_catalog c (c.insert table payload)) _
          (in_catalog-Preserves (c.insert table payload))
          (λ rid.
            >>=-Preserves (journal_append c (undo_insert table rid)) _
              (kept.append_keeps (undo_insert table rid)) (λ _ s h. h))

    pub remove_rest-Preserves :
        (table : T) (rid : P)
        → Preserves (in_catalog c (c.fetch table rid) >>= remove_found c table rid)
    remove_rest-Preserves table rid =
        >>=-Preserves (in_catalog c (c.fetch table rid)) _
          (in_catalog-Preserves (c.fetch table rid)) (remove_found-Preserves table rid)

    insert-Preserves : (table : T) (payload : Bytes) → Preserves (locked_insert c table payload)
    unfolding locked_insert
    insert-Preserves table payload =
        >>=-Preserves (lock c (table_of table) exclusive) _
          (kept.lock_keeps (table_of table) exclusive) (λ _. insert_rest-Preserves table payload)

    fetch-Preserves : (table : T) (rid : P) → Preserves (locked_fetch c table rid)
    unfolding locked_fetch
    fetch-Preserves table rid =
        >>=-Preserves (lock c (record_of rid) shared) _ (kept.lock_keeps (record_of rid) shared)
          (λ _. in_catalog-Preserves (c.fetch table rid))

    remove-Preserves : (table : T) (rid : P) → Preserves (locked_remove c table rid)
    unfolding locked_remove
    remove-Preserves table rid =
        >>=-Preserves (lock c (record_of rid) exclusive) _
          (kept.lock_keeps (record_of rid) exclusive) (λ _. remove_rest-Preserves table rid)

    scan-Preserves : (table : T) → Preserves (locked_scan c table)
    unfolding locked_scan
    scan-Preserves table =
        >>=-Preserves (lock c (table_of table) shared) _ (kept.lock_keeps (table_of table) shared)
          (λ _. in_catalog-Preserves (c.scan table))

    pub run_call-Preserves : (call : Call T P I) → Preserves (run_call c call)
    unfolding run_call lock_shared
    run_call-Preserves (insert table payload) =
        >>=-Preserves (locked_insert c table payload) _ (insert-Preserves table payload)
          (λ _ s h. h)
    run_call-Preserves (fetch table rid) =
        >>=-Preserves (locked_fetch c table rid) _ (fetch-Preserves table rid) (λ _ s h. h)
    run_call-Preserves (remove table rid) =
        >>=-Preserves (locked_remove c table rid) _ (remove-Preserves table rid) (λ _ s h. h)
    run_call-Preserves (scan table) =
        >>=-Preserves (locked_scan c table) _ (scan-Preserves table) (λ _ s h. h)
    run_call-Preserves (share table) = kept.lock_keeps (table_of table) shared
    run_call-Preserves (index_insert i value rid) =
        in_catalog-Preserves (c.index_insert i value rid)
    run_call-Preserves (index_remove i value rid) =
        in_catalog-Preserves (c.index_remove i value rid)
    run_call-Preserves (insert_document i rid value) =
        in_catalog-Preserves (c.insert_document i rid value)
    run_call-Preserves (remove_document i rid value) =
        in_catalog-Preserves (c.remove_document i rid value)
    run_call-Preserves (fail e) = λ s h. h

    -- What the proxies keep holds after any calls, also when one of them raises.
    pub run_calls-Preserves : (calls : List (Call T P I)) → Preserves (run_calls c calls)
    unfolding run_calls
    run_calls-Preserves [] = λ s h. h
    run_calls-Preserves (call ∷ calls) =
        >>=-Preserves (run_call c call) _ (run_call-Preserves call) (λ _. run_calls-Preserves calls)
