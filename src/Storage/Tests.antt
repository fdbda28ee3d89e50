-- ===== src/Storage/Tests.antt =====
-- Runs of the disk manager and the buffer pool, on a file of two pages of two bytes.
use soup_db.Common.{ℕ, ◌≡◌, refl, ◌≢◌, ◌⊎◌, true, false, [], ◌∷◌, ok, raise, Exc, arith}
use soup_db.Common.Dict
use soup_db.Common.Dict.{nat_key}
use soup_db.Storage.Disk.{Disk, page, read_page}
use soup_db.Storage.Disk.Pages
use soup_db.Storage.Disk.Pages.{page-write_page, page-allocate_page}
use soup_db.Storage.Buffer.{
  Pool, pin_count, pin, unpin, write_frame, flush_all, fetch_frame, load, choose_victim, evict,
}
use soup_db.Storage.Buffer.Flush.{IsValid, content, flush_all_lem}
use soup_db.Storage.Buffer.Pin.{Pinned, Exhausted, pin-Pinned}
use soup_db.Storage.Buffer.Unpin.{write_reaches_disk}

abbrev disk : Disk
disk = record { page_size = 2; file = 1 ∷ 2 ∷ 3 ∷ 4 ∷ []; next_page_id = 2; reads = 0; writes = 0 }

disk-IsValid : Pages.IsValid disk
disk-IsValid = record { sized = omega arith; whole = refl }

-- A new pool with room for one page.
abbrev pool : Pool
pool = record { disk = disk; capacity = 1; frames = []; pin_counts = []; dirty = [] }

pool-IsValid : IsValid pool
unfolding Dict.get Dict.has pin_count
pool-IsValid = record {
  disk_ok = disk-IsValid;
  room = omega arith;
  bounded = omega arith;
  framed = λ p f h. absurd (cc);
  dirty_framed = λ p h. absurd (cc);
  pinned_framed = λ p h. absurd (omega arith);
  clean = λ p f h d n. absurd (cc);
}

abbrev pinned_pool : Pool
pinned_pool = record {
  disk = record {
    page_size = 2;
    file = 1 ∷ 2 ∷ 3 ∷ 4 ∷ [];
    next_page_id = 2;
    reads = 1;
    writes = 0;
  };
  capacity = 1;
  frames = (1, 3 ∷ 4 ∷ []) ∷ [];
  pin_counts = (1, 1) ∷ [];
  dirty = [];
}

pool_pins : pin 1 pool ≡ (ok (3 ∷ 4 ∷ []), pinned_pool)
unfolding pin Dict.get Dict.put Dict.remove read_page fetch_frame load choose_victim evict
pool_pins = refl

pin-Pinned_example :
    ((s' : Pool) × (pin 1 pool ≡ (ok (content pool 1), s')) × Pinned 1 pool s')
    ⊎ (pin 1 pool ≡ (raise Exc.runtime_error, pool)) × Exhausted 1 pool
pin-Pinned_example = pin-Pinned pool pool-IsValid 1 (omega arith)

flush_all_lem_example :
    (s' : Pool) × (flush_all pool ≡ (ok tt, s'))
    × IsValid s'
    × ((q : ℕ) → content s' q ≡ content pool q)
    × ((q : ℕ) → Dict.has q s'.dirty ≡ false)
    × ((q : ℕ) → pin_count pool.pin_counts q ≡ 0 → page s'.disk q ≡ content pool q)
flush_all_lem_example = flush_all_lem pool pool-IsValid

write_reaches_disk_example :
    (s2 s3 : Pool) × (unpin 1 true (write_frame 1 (8 ∷ 9 ∷ []) pinned_pool) ≡ (ok tt, s2))
    × (flush_all s2 ≡ (ok tt, s3))
    × IsValid s3
    × (pin_count pool.pin_counts 1 ≡ 0 → page s3.disk 1 ≡ 8 ∷ 9 ∷ [])
    × ((q : ℕ) → q ≢ 1 → pin_count pool.pin_counts q ≡ 0 → page s3.disk q ≡ content pool q)
write_reaches_disk_example =
    write_reaches_disk pool pinned_pool 1 (3 ∷ 4 ∷ []) (8 ∷ 9 ∷ []) pool-IsValid (omega arith)
      pool_pins refl
