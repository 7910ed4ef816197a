-- ===== src/Commands.antt =====
-- src/core/Queue.cpp and Queue.h: the commands that move data between buffers and the host.
-- The counters of the loops are `unsigned`: a region has fewer than 2^32 rows and slices.
pub mod Effects
pub mod Filling
pub mod Schedule
mod Examples
use oclgrind.Base.{
  ℕ, zero, suc, ◌+◌, ◌*◌, ◌/◌, ◌%◌, List, Option, none, some, slice, overwrite, size_mod,
}
use oclgrind.Memory.{Memory, load, store, copy}
use oclgrind.NdRange.{Size3}

-- The array at `ptr` is the host's part of the state.
pub record BufferCommand : Type 0 where
  pub address : ℕ
  pub size : ℕ

pub record BufferRectCommand : Type 0 where
  pub address : ℕ
  pub region : Size3
  pub host_offset : Size3
  pub buffer_offset : Size3

pub record CopyCommand : Type 0 where
  pub src : ℕ
  pub dst : ℕ
  pub size : ℕ

pub record CopyRectCommand : Type 0 where
  pub src : ℕ
  pub dst : ℕ
  pub region : Size3
  pub src_offset : Size3
  pub dst_offset : Size3

-- The constructors copy as many bytes of the pattern, and of the color, as its size says.
pub record FillBufferCommand : Type 0 where
  pub address : ℕ
  pub size : ℕ
  pub pattern_size : ℕ
  pub pattern : List ℕ

pub record FillImageCommand : Type 0 where
  pub base : ℕ
  pub origin : Size3
  pub region : Size3
  pub row_pitch : ℕ
  pub slice_pitch : ℕ
  pub pixel_size : ℕ
  pub color : List ℕ

-- `for (i = start; rounds are left; i++) s = body(i, s)`
pub loop : {S : Type 0} → (ℕ → S → S) → ℕ → ℕ → S → S
loop body start zero s = s
loop body start (suc n) s = loop body (suc start) n (body start s)

-- The two loops over the rows of a region, with z outside.
pub rows : {S : Type 0} → (ℕ → ℕ → S → S) → Size3 → S → S
unfolding loop
rows body region s = loop (λ z t. loop (λ y u. body z y u) 0 region.y t) 0 region.z s

-- The address of row y of slice z: an origin, and the pitches of a row and of a slice.
unfoldable pub row_address : ℕ → Size3 → ℕ → ℕ → ℕ
row_address base o z y = (base + o.x + y * o.y + z * o.z) % size_mod

pub execute_copy_buffer : CopyCommand → Memory → Memory
execute_copy_buffer c m = (copy m c.dst c.src c.size).0

pub execute_copy_buffer_rect : CopyRectCommand → Memory → Memory
execute_copy_buffer_rect c m =
    rows
      (λ z y n.
        (copy n (row_address c.dst c.dst_offset z y) (row_address c.src c.src_offset z y)
          c.region.x).0)
      c.region m

pub execute_fill_buffer : FillBufferCommand → Memory → Memory
execute_fill_buffer c m =
    loop (λ i n. (store n ((c.address + i * c.pattern_size) % size_mod) c.pattern).0) 0
      (c.size / c.pattern_size) m

pub execute_fill_image : FillImageCommand → Memory → Memory
execute_fill_image c m =
    rows
      (λ z y n.
        loop
          (λ x k.
            (store k
              ((c.base
                  + (c.origin.x + x) * c.pixel_size
                  + (c.origin.y + y) * c.row_pitch
                  + (c.origin.z + z) * c.slice_pitch)
                % size_mod)
              c.color).0)
          0 c.region.x n)
      c.region m

-- A load that fails leaves the host's array as it was.
abbrev pub delivered : Option (List ℕ) → List ℕ → ℕ → List ℕ
delivered none host offset = host
delivered (some bytes) host offset = overwrite host offset bytes

pub execute_read_buffer : BufferCommand → Memory × List ℕ → Memory × List ℕ
execute_read_buffer c (m, host) = let r = load m c.address c.size in (r.0, delivered r.1 host 0)

pub execute_read_buffer_rect : BufferRectCommand → Memory × List ℕ → Memory × List ℕ
execute_read_buffer_rect c s =
    rows
      (λ z y t.
        let r = load t.0 (row_address c.address c.buffer_offset z y) c.region.x in
        (r.0, delivered r.1 t.1 (c.host_offset.x + y * c.host_offset.y + z * c.host_offset.z)))
      c.region s

pub execute_write_buffer : BufferCommand → List ℕ → Memory → Memory
execute_write_buffer c host m = (store m c.address (slice 0 c.size host)).0

pub execute_write_buffer_rect : BufferRectCommand → List ℕ → Memory → Memory
execute_write_buffer_rect c host m =
    rows
      (λ z y n.
        (store n (row_address c.address c.buffer_offset z y)
          (slice (c.host_offset.x + y * c.host_offset.y + z * c.host_offset.z) c.region.x host)).0)
      c.region m

-- A command that moves data, with the host's array for those that read from it.
pub data Command : Type 0 where
  copy_buffer : CopyCommand → Command
  copy_rect : CopyRectCommand → Command
  fill_buffer : FillBufferCommand → Command
  fill_image : FillImageCommand → Command
  read_buffer : BufferCommand → List ℕ → Command
  read_rect : BufferRectCommand → List ℕ → Command
  write_buffer : BufferCommand → List ℕ → Command
  write_rect : BufferRectCommand → List ℕ → Command

-- The memory after the command; the dispatch in `execute`.
pub dispatch : Command → Memory → Memory
dispatch (copy_buffer c) m = execute_copy_buffer c m
dispatch (copy_rect c) m = execute_copy_buffer_rect c m
dispatch (fill_buffer c) m = execute_fill_buffer c m
dispatch (fill_image c) m = execute_fill_image c m
dispatch (read_buffer c host) m = (execute_read_buffer c (m, host)).0
dispatch (read_rect c host) m = (execute_read_buffer_rect c (m, host)).0
dispatch (write_buffer c host) m = execute_write_buffer c host m
dispatch (write_rect c host) m = execute_write_buffer_rect c host m
