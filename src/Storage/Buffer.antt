-- ===== src/Storage/Buffer.antt =====
-- engine/storage/buffer_manager.py. The frames are the `OrderedDict`, least recently used first; the
-- set of dirty pages is a dictionary to the unit type. `pin` returns a frame that its caller may
-- write in place until it unpins the page: `write_frame` is that caller's step.
pub mod Flush
pub mod Pin
pub mod Unpin
use soup_db.Common.{
  ℕ, ◌+◌, ◌-◌, Bool, true, false, Option, none, some, List, [], ◌∷◌, map, Exc, Result, ok, raise,
  length, ltb, leb, ◌==◌, if◌then◌else◌,
}
use soup_db.Common.Dict
use soup_db.Common.Dict.{Dict, Key, nat_key}
use soup_db.Common.Bytes.{Bytes}
use soup_db.Common.Exec.{Exec, pure, throw, modify, gets, ◌>>=◌, ◌>>◌}
use soup_db.Storage.Disk
use soup_db.Storage.Disk.{Disk}

pub record Pool : Type 0 where
  pub disk : Disk
  pub capacity : ℕ
  pub frames : Dict ℕ Bytes
  pub pin_counts : Dict ℕ ℕ
  pub dirty : Dict ℕ (Unit {0})

unfoldable pub new_pool : Disk → ℕ → Result Pool
new_pool disk capacity =
    if capacity == 0
    then raise Exc.value_error
    else ok (record { disk = disk; capacity = capacity; frames = []; pin_counts = []; dirty = [] })

-- A method of the disk manager, called on the pool's disk.
unfoldable pub on_disk : {A : Type 0} → Exec Disk A → Exec Pool A
on_disk m s = let (r, d) = m s.disk in (r, record s { disk = d })

-- `self._pin_counts.get(page_id, 0)`
unfoldable pub pin_count : Dict ℕ ℕ → ℕ → ℕ
pin_count pins p = elim (Dict.get p pins) [ none ↦ 0 | some n ↦ n ]

unfoldable pub is_pinned : Pool → ℕ → Bool
unfolding pin_count
is_pinned s p = ltb 0 (pin_count s.pin_counts p)

unfoldable pub write_back : ℕ → Option Bytes → Exec Pool (Unit {0})
unfolding on_disk
write_back p none = throw Exc.key_error
write_back p (some frame) = do
  on_disk (Disk.write_page p frame)
  modify (λ s. record s { dirty = Dict.remove p s.dirty })

unfoldable pub flush_page : ℕ → Exec Pool (Unit {0})
unfolding write_back
flush_page p s = if Dict.has p s.dirty then write_back p (Dict.get p s.frames) s else (ok tt, s)

flush_each : List ℕ → Exec Pool (Unit {0})
unfolding flush_page
flush_each [] = pure tt
flush_each (p ∷ rest) = do flush_page p; flush_each rest

unfoldable pub flush_all : Exec Pool (Unit {0})
unfolding flush_each
flush_all s = flush_each (map (λ d. d.0) s.dirty) s

-- The loop of `_select_victim` over the frames.
unfoldable pub select_from : Pool → Dict ℕ Bytes → Option ℕ
unfolding pin_count
select_from s [] = none
select_from s ((candidate, _) ∷ frames) =
    let rest = select_from s frames in
    if pin_count s.pin_counts candidate == 0 then some candidate else rest

unfoldable pub or_full : Option ℕ → Result ℕ
or_full none = raise Exc.runtime_error
or_full (some p) = ok p

unfoldable pub select_victim : Pool → Result ℕ
unfolding select_from or_full
select_victim s = or_full (select_from s s.frames)

-- `self._frames.move_to_end(page_id)` of a page whose frame is at hand.
unfoldable pub move_to_end : ℕ → Bytes → Pool → Pool
move_to_end p frame s = record s { frames = Dict.put p frame (Dict.remove p s.frames) }

unfoldable pub add_pin : ℕ → Pool → Pool
unfolding pin_count
add_pin p s = record s { pin_counts = Dict.put p (pin_count s.pin_counts p + 1) s.pin_counts }

unfoldable pub choose_victim : Exec Pool (Option ℕ)
unfolding select_victim
choose_victim s =
    if leb s.capacity (length s.frames)
    then (do v ← (λ t. (select_victim t, t)); pure (some v)) s
    else (ok none, s)

unfoldable pub evict : Option ℕ → Exec Pool (Unit {0})
unfolding flush_page
evict none = pure tt
evict (some v) = do flush_page v; modify (λ s. record s { frames = Dict.remove v s.frames })

-- The branch of `pin` for a page that has no frame.
unfoldable pub load : ℕ → Exec Pool Bytes
unfolding on_disk
load p = do
  victim ← choose_victim
  bytes ← on_disk (Disk.read_page p)
  evict victim
  modify (λ s. record s { frames = Dict.put p bytes s.frames })
  pure bytes

unfoldable pub fetch_frame : ℕ → Option Bytes → Exec Pool Bytes
unfolding move_to_end
fetch_frame p (some frame) = do modify (move_to_end p frame); pure frame
fetch_frame p none = load p

unfoldable pub pin : ℕ → Exec Pool Bytes
unfolding add_pin
pin p s = (do frame ← fetch_frame p (Dict.get p s.frames); modify (add_pin p); pure frame) s

unfoldable pub drop_pin : ℕ → Pool → Pool
unfolding pin_count
drop_pin p s = record s {
  pin_counts =
      if pin_count s.pin_counts p == 1
      then Dict.remove p s.pin_counts
      else Dict.put p (pin_count s.pin_counts p - 1) s.pin_counts;
}

unfoldable pub unpin : ℕ → Bool → Exec Pool (Unit {0})
unfolding drop_pin
unpin p is_dirty s = if pin_count s.pin_counts p == 0 then (raise Exc.value_error, s) else (
  ok tt,
  drop_pin p (record s { dirty = if is_dirty then Dict.put p tt s.dirty else s.dirty }),
)

-- A caller of `pin` writes into the frame that it was given.
unfoldable pub write_frame : ℕ → Bytes → Pool → Pool
write_frame p bytes s = record s { frames = Dict.put p bytes s.frames }
