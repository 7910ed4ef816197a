-- ===== src/Runtime/Transfers/Accepted.antt =====
-- src/runtime/runtime.cpp and src/core/Queue.cpp: a command that the runtime accepts stays in the buffers.
use native.Mathlib.Nat.{mod-eq_of_lt}
use oclgrind.Base.{
  ℕ, ◌+◌, ◌*◌, ◌/◌, ◌%◌, ◌≤◌, ◌<◌, ◌≡◌, sym, subst, arith, true, false, ltb, List, Option, none,
  some, Result, ok, Holds, returns, raises, Holds-ok, bind-Holds, size_mod,
}
use oclgrind.Commands.{
  copy_buffer, copy_rect, fill_buffer, fill_image, read_buffer, read_rect, write_buffer, write_rect,
  row_address,
}
use oclgrind.Memory.{Memory, is_address_valid}
use oclgrind.NdRange.{Size3}
use oclgrind.Runtime.{
  Code, MemObject, EventObject, WaitList, Request, transfer, map_buffer, unmap, kernel,
  check_event_wait_list, reject-Holds,
}
use oclgrind.Runtime.Transfers.{
  Accepted, ApiCall, read, write, reads_rect, writes_rect, copy, copies_rect, fill, enqueue,
  enqueue_read_buffer, enqueue_write_buffer, enqueue_read_buffer_rect, enqueue_write_buffer_rect,
  enqueue_copy_buffer, enqueue_copy_buffer_rect, enqueue_fill_buffer, rect_offsets, rect_end,
}
use oclgrind.Runtime.Transfers.Bounds.{Backed, Regular, row_in_bounds}

-- Every access that the command makes to memory is to a valid range.
abbrev RowsIn : Memory → ℕ → Size3 → Size3 → Type 0
RowsIn m address offset region =
    (z y : ℕ)
    → z < region.z
    → y < region.y
    → is_address_valid m (row_address address offset z y) region.x ≡ true

abbrev pub InBounds : Memory → Request → Type 0
InBounds m (transfer (read_buffer c host)) = is_address_valid m c.address c.size ≡ true
InBounds m (transfer (write_buffer c host)) = is_address_valid m c.address c.size ≡ true
InBounds m (transfer (read_rect c host)) = RowsIn m c.address c.buffer_offset c.region
InBounds m (transfer (write_rect c host)) = RowsIn m c.address c.buffer_offset c.region
InBounds m (transfer (copy_buffer c)) =
    (is_address_valid m c.src c.size ≡ true) × (is_address_valid m c.dst c.size ≡ true)
InBounds m (transfer (copy_rect c)) =
    RowsIn m c.src c.src_offset c.region × RowsIn m c.dst c.dst_offset c.region
InBounds m (transfer (fill_buffer c)) =
    (i : ℕ)
    → i < c.size / c.pattern_size
    → is_address_valid m ((c.address + i * c.pattern_size) % size_mod) c.pattern_size ≡ true
InBounds m (transfer (fill_image c)) = ⊥
InBounds m (map_buffer address offset size flags) = ⊥
InBounds m (unmap address ptr) = ⊥
InBounds m (kernel k offset global local) = ⊥

abbrev BackedIf : Memory → Option MemObject → Type 0
BackedIf m none = Unit
BackedIf m (some b) = Backed m b

abbrev RegularIf : Size3 → Option Size3 → ℕ → ℕ → Type 0
RegularIf origin none row slice = Unit
RegularIf origin (some region) row slice = Regular origin region row slice

-- The buffers of the call are backed by the memory, and the ends of its ranges are numbers of size_t.
abbrev pub Supported : Memory → ApiCall → Type 0
Supported m (read b offset cb ptr) = BackedIf m b × (offset + cb < size_mod)
Supported m (write b offset cb ptr) = BackedIf m b × (offset + cb < size_mod)
Supported m (reads_rect b o h r br bs hr hs ptr) = BackedIf m b × Regular o r br bs
Supported m (writes_rect b o h r br bs hr hs ptr) = BackedIf m b × Regular o r br bs
Supported m (copy src dst from to cb) =
    BackedIf m src × BackedIf m dst × (from + cb < size_mod) × (to + cb < size_mod)
Supported m (copies_rect src dst from to r sr ss dr ds) =
    BackedIf m src × BackedIf m dst × RegularIf from r sr ss × RegularIf to r dr ds
Supported m (fill b pattern n offset cb) = BackedIf m b × (offset + cb < size_mod)

range_in :
    (m : Memory) (b : MemObject) (offset n : ℕ)
    → Backed m b
    → offset + n < size_mod
    → ltb b.size ((offset + n) % size_mod) ≡ false
    → is_address_valid m ((b.address + offset) % size_mod) n ≡ true
range_in m b offset n back fits inside =
    let (below, valid) = back offset n (ground (arith, mod-eq_of_lt fits)) in
    subst (λ a. is_address_valid m a n ≡ true) (sym (mod-eq_of_lt below)) valid

rows_in :
    (m : Memory) (b : MemObject) (origin region : Size3) (row slice : ℕ)
    → Backed m b
    → Regular origin region row slice
    → ltb b.size (rect_end (rect_offsets origin region row slice) region) ≡ false
    → RowsIn m b.address (rect_offsets origin region row slice) region
rows_in m b origin region row slice back reg e z y hz hy =
    row_in_bounds m b origin region row slice z y back reg (ground arith) hz hy

-- The first element is a request in bounds.
abbrev Good : Memory → Result Code Accepted → Type 0
Good m r = Holds (λ (a : Accepted). InBounds m a.0) r

read-InBounds :
    (m : Memory) (queue : Option ℕ) (b : Option MemObject) (offset cb : ℕ) (ptr : Option (List ℕ))
    (wait : WaitList)
    → BackedIf m b
    → offset + cb < size_mod
    → Good m (enqueue_read_buffer queue b offset cb ptr wait)
unfolding enqueue_read_buffer
read-InBounds m none b offset cb ptr wait back fits = raises
read-InBounds m (some q) none offset cb ptr wait back fits = raises
read-InBounds m (some q) (some b) offset cb none wait back fits = raises
read-InBounds m (some q) (some b) offset cb (some host) wait back fits = reject-Holds _ _ λ e.
    reject-Holds _ _ λ f.
      bind-Holds (check_event_wait_list q wait) λ es g. returns (range_in m b offset cb back fits e)

write-InBounds :
    (m : Memory) (queue : Option ℕ) (b : Option MemObject) (offset cb : ℕ) (ptr : Option (List ℕ))
    (wait : WaitList)
    → BackedIf m b
    → offset + cb < size_mod
    → Good m (enqueue_write_buffer queue b offset cb ptr wait)
unfolding enqueue_write_buffer
write-InBounds m none b offset cb ptr wait back fits = raises
write-InBounds m (some q) none offset cb ptr wait back fits = raises
write-InBounds m (some q) (some b) offset cb none wait back fits = raises
write-InBounds m (some q) (some b) offset cb (some host) wait back fits = reject-Holds _ _ λ e.
    reject-Holds _ _ λ f.
      bind-Holds (check_event_wait_list q wait) λ es g. returns (range_in m b offset cb back fits e)

read_rect-InBounds :
    (m : Memory) (queue : Option ℕ) (b : Option MemObject) (origin host_origin region : Size3)
    (row slice host_row host_slice : ℕ) (ptr : Option (List ℕ)) (wait : WaitList)
    → BackedIf m b
    → Regular origin region row slice
    → Good m (
        enqueue_read_buffer_rect queue b origin host_origin region row slice host_row host_slice ptr
          wait)
unfolding enqueue_read_buffer_rect
read_rect-InBounds m none b o h r row slice hr hs ptr wait back reg = raises
read_rect-InBounds m (some q) none o h r row slice hr hs ptr wait back reg = raises
read_rect-InBounds m (some q) (some b) o h r row slice hr hs none wait back reg = raises
read_rect-InBounds m (some q) (some b) o h r row slice hr hs (some host) wait back reg =
    reject-Holds _ _ λ f.
      bind-Holds (check_event_wait_list q wait)
        λ es g. reject-Holds _ _ λ e. returns (rows_in m b o r row slice back reg e)

write_rect-InBounds :
    (m : Memory) (queue : Option ℕ) (b : Option MemObject) (origin host_origin region : Size3)
    (row slice host_row host_slice : ℕ) (ptr : Option (List ℕ)) (wait : WaitList)
    → BackedIf m b
    → Regular origin region row slice
    → Good m (
        enqueue_write_buffer_rect queue b origin host_origin region row slice host_row host_slice
          ptr wait)
unfolding enqueue_write_buffer_rect
write_rect-InBounds m none b o h r row slice hr hs ptr wait back reg = raises
write_rect-InBounds m (some q) none o h r row slice hr hs ptr wait back reg = raises
write_rect-InBounds m (some q) (some b) o h r row slice hr hs none wait back reg = raises
write_rect-InBounds m (some q) (some b) o h r row slice hr hs (some host) wait back reg =
    reject-Holds _ _ λ f.
      bind-Holds (check_event_wait_list q wait)
        λ es g. reject-Holds _ _ λ e. returns (rows_in m b o r row slice back reg e)

copy-InBounds :
    (m : Memory) (queue : Option ℕ) (src dst : Option MemObject) (from to cb : ℕ) (wait : WaitList)
    → BackedIf m src
    → BackedIf m dst
    → from + cb < size_mod
    → to + cb < size_mod
    → Good m (enqueue_copy_buffer queue src dst from to cb wait)
unfolding enqueue_copy_buffer
copy-InBounds m none src dst from to cb wait bs bd hs hd = raises
copy-InBounds m (some q) none dst from to cb wait bs bd hs hd = raises
copy-InBounds m (some q) (some src) none from to cb wait bs bd hs hd = raises
copy-InBounds m (some q) (some src) (some dst) from to cb wait bs bd hs hd = reject-Holds _ _ λ e.
    reject-Holds _ _ λ f. reject-Holds _ _ λ g. reject-Holds _ _ λ h.
      bind-Holds (check_event_wait_list q wait)
        λ es k. returns (range_in m src from cb bs hs f, range_in m dst to cb bd hd e)

copy_rect-InBounds :
    (m : Memory) (queue : Option ℕ) (src dst : Option MemObject) (from to : Size3)
    (region : Option Size3) (src_row src_slice dst_row dst_slice : ℕ) (wait : WaitList)
    → BackedIf m src
    → BackedIf m dst
    → RegularIf from region src_row src_slice
    → RegularIf to region dst_row dst_slice
    → Good m (
        enqueue_copy_buffer_rect queue src dst from to region src_row src_slice dst_row dst_slice
          wait)
unfolding enqueue_copy_buffer_rect
copy_rect-InBounds m none src dst from to r sr ss dr ds wait bs bd hs hd = raises
copy_rect-InBounds m (some q) none dst from to r sr ss dr ds wait bs bd hs hd = raises
copy_rect-InBounds m (some q) (some src) none from to r sr ss dr ds wait bs bd hs hd = raises
copy_rect-InBounds m (some q) (some src) (some dst) from to none sr ss dr ds wait bs bd hs hd =
    raises
copy_rect-InBounds m (some q) (some src) (some dst) from to (some r) sr ss dr ds wait bs bd hs hd =
    reject-Holds _ _ λ e. bind-Holds (check_event_wait_list q wait) λ es k. reject-Holds _ _ λ f.
      reject-Holds _ _
        λ g. returns (rows_in m src from r sr ss bs hs f, rows_in m dst to r dr ds bd hd g)

-- The i-th pattern of a fill ends inside the range.
pattern_within : (n cb i : ℕ) → i < cb / n → i * n + n ≤ cb
pattern_within n cb i h = grind arith

fill_range :
    (m : Memory) (b : MemObject) (n offset cb i : ℕ)
    → Backed m b
    → offset + cb < size_mod
    → ltb b.size ((offset + cb) % size_mod) ≡ false
    → i < cb / n
    → is_address_valid m (((b.address + offset) % size_mod + i * n) % size_mod) n ≡ true
fill_range m b n offset cb i back fits e lt =
    let within = pattern_within n cb i lt in
    let inside : offset + cb ≤ b.size = ground (arith, mod-eq_of_lt fits) in
    let (low, _) = back offset 0 (omega arith) in
    let (below, valid) = back (offset + i * n) n (omega (arith, within, inside)) in
    let same : b.address + (offset + i * n) ≡ ((b.address + offset) % size_mod + i * n) % size_mod =
      omega (arith, low, below) in
    subst (λ a. is_address_valid m a n ≡ true) same valid

fill-InBounds :
    (m : Memory) (queue : Option ℕ) (b : Option MemObject) (ptr : Option (List ℕ)) (n offset cb : ℕ)
    (wait : WaitList)
    → BackedIf m b
    → offset + cb < size_mod
    → Good m (enqueue_fill_buffer queue b ptr n offset cb wait)
unfolding enqueue_fill_buffer
fill-InBounds m none b ptr n offset cb wait back fits = raises
fill-InBounds m (some q) none ptr n offset cb wait back fits = raises
fill-InBounds m (some q) (some b) none n offset cb wait back fits = reject-Holds _ _ λ e. raises
fill-InBounds m (some q) (some b) (some p) n offset cb wait back fits = reject-Holds _ _ λ e.
    reject-Holds _ _ λ f. reject-Holds _ _ λ g. reject-Holds _ _ λ h.
      bind-Holds (check_event_wait_list q wait)
        λ es k. returns λ i lt. fill_range m b n offset cb i back fits e lt

-- A transfer that the runtime accepts makes only accesses to valid ranges of memory, if its buffers are
-- backed by the memory and the ends of its ranges are below 2^64.
pub enqueue-InBounds :
    (m : Memory) (queue : Option ℕ) (call : ApiCall) (wait : WaitList) (r : Request)
    (events : List EventObject)
    → Supported m call
    → enqueue queue call wait ≡ ok (r, events)
    → InBounds m r
unfolding enqueue
enqueue-InBounds m queue call wait r events s e =
    Holds-ok (subst (Good m) e (all_good m queue call wait s))
  where
    all_good :
        (m : Memory) (queue : Option ℕ) (call : ApiCall) (wait : WaitList)
        → Supported m call
        → Good m (enqueue queue call wait)
    all_good m queue (read b offset cb ptr) wait s =
        read-InBounds m queue b offset cb ptr wait s.0 s.1
    all_good m queue (write b offset cb ptr) wait s =
        write-InBounds m queue b offset cb ptr wait s.0 s.1
    all_good m queue (reads_rect b o h r br bs hr hs ptr) wait s =
        read_rect-InBounds m queue b o h r br bs hr hs ptr wait s.0 s.1
    all_good m queue (writes_rect b o h r br bs hr hs ptr) wait s =
        write_rect-InBounds m queue b o h r br bs hr hs ptr wait s.0 s.1
    all_good m queue (copy src dst from to cb) wait s =
        copy-InBounds m queue src dst from to cb wait s.0 s.1 s.2 s.3
    all_good m queue (copies_rect src dst from to r sr ss dr ds) wait s =
        copy_rect-InBounds m queue src dst from to r sr ss dr ds wait s.0 s.1 s.2 s.3
    all_good m queue (fill b p n offset cb) wait s =
        fill-InBounds m queue b p n offset cb wait s.0 s.1
