-- ===== src/Commands/Effects.antt =====
-- src/core/Queue.cpp: what the commands leave in memory.
use oclgrind.Base.{
  ℕ, zero, suc, ◌/◌, ◌≤◌, ◌≡◌, refl, ap, ◌∙◌, arith, Bool, true, false, List, [], ◌∷◌, some, length,
  slice, overwrite, take-length,
}
use oclgrind.Memory.{Memory, load, store, is_address_valid}
use oclgrind.Memory.Invariant.{Wf, store-Wf, load-Wf}
use oclgrind.Memory.Updates.{copy-Wf}
use oclgrind.Memory.Store.{Stored, store_lem}
use oclgrind.NdRange.{Size3}
use oclgrind.Commands.{
  Command, copy_buffer, copy_rect, fill_buffer, fill_image, read_buffer, read_rect, write_buffer,
  write_rect, BufferCommand, loop, rows, dispatch, execute_copy_buffer, execute_copy_buffer_rect,
  execute_fill_buffer, execute_fill_image, execute_read_buffer, execute_read_buffer_rect,
  execute_write_buffer, execute_write_buffer_rect, delivered,
}

module _ {S : Type 0} (P : S → Type 0) where
  pub loop-keeps :
      (body : ℕ → S → S) (i n : ℕ) (s : S)
      → ((j : ℕ) (t : S) → P t → P (body j t))
      → P s
      → P (loop body i n s)
  unfolding loop
  loop-keeps body i zero s h p = p
  loop-keeps body i (suc n) s h p = loop-keeps body (suc i) n (body i s) h (h i s p)

  pub rows-keeps :
      (body : ℕ → ℕ → S → S) (region : Size3) (s : S)
      → ((z y : ℕ) (t : S) → P t → P (body z y t))
      → P s
      → P (rows body region s)
  unfolding rows
  rows-keeps body region s h p =
      loop-keeps _ 0 region.z s
        (λ z t q. loop-keeps (λ y u. body z y u) 0 region.y t (λ y u r. h z y u r) q) p

-- Every command that moves data, whatever its addresses and sizes, leaves a well-formed memory well formed.
pub dispatch-Wf : (c : Command) (m : Memory) → Wf m → Wf (dispatch c m)
unfolding dispatch execute_copy_buffer execute_copy_buffer_rect execute_fill_buffer
    execute_fill_image execute_read_buffer execute_read_buffer_rect execute_write_buffer
    execute_write_buffer_rect
dispatch-Wf (copy_buffer c) m w = copy-Wf m c.dst c.src c.size w
dispatch-Wf (copy_rect c) m w = rows-keeps Wf _ c.region m (λ z y n v. copy-Wf n _ _ c.region.x v) w
dispatch-Wf (fill_buffer c) m w =
    loop-keeps Wf _ 0 (c.size / c.pattern_size) m (λ i n v. store-Wf n _ c.pattern v) w
dispatch-Wf (fill_image c) m w =
    rows-keeps Wf _ c.region m
      (λ z y n v. loop-keeps Wf _ 0 c.region.x n (λ x k u. store-Wf k _ c.color u) v) w
dispatch-Wf (read_buffer c host) m w = load-Wf m c.address c.size w
dispatch-Wf (read_rect c host) m w =
    rows-keeps (λ (t : Memory × List ℕ). Wf t.0) _ c.region (m, host)
      (λ z y t v. load-Wf t.0 _ c.region.x v) w
dispatch-Wf (write_buffer c host) m w = store-Wf m c.address (slice 0 c.size host) w
dispatch-Wf (write_rect c host) m w = rows-keeps Wf _ c.region m (λ z y n v. store-Wf n _ _ v) w

pub load_back :
    (m : Memory) (a : ℕ) (source : List ℕ) (r : Memory × Bool)
    → is_address_valid m a (length source) ≡ true
    → Stored m a source r
    → (load r.0 a (length source)).1 ≡ some source
load_back m a source (m', true) v h = h.0
load_back m a source (m', false) v h = cc (v, h.0)

slice_all : {A : Type 0} (xs : List A) → slice 0 (length xs) xs ≡ xs
slice_all [] = refl
slice_all (x ∷ xs) = take-length (x ∷ xs)

overwrite_all : {A : Type 0} (xs ys : List A) → length xs ≡ length ys → overwrite xs 0 ys ≡ ys
overwrite_all [] [] h = refl
overwrite_all [] (y ∷ ys) h = absurd (omega arith)
overwrite_all (x ∷ xs) [] h = absurd (omega arith)
overwrite_all (x ∷ xs) (y ∷ ys) h = ap (λ zs. y ∷ zs) (overwrite_all xs ys (omega arith))

-- In a well-formed memory, what a command writes from a whole host array to a valid range, of at most
-- `max_buffer_size` bytes, a command that reads the same range delivers into any host array of that size.
pub read-write_buffer :
    (m : Memory) (address : ℕ) (source host : List ℕ)
    → Wf m
    → length source ≤ m.max_buffer_size
    → is_address_valid m address (length source) ≡ true
    → length host ≡ length source
    → let c : BufferCommand = record { address = address; size = length source } in
      (execute_read_buffer c (execute_write_buffer c source m, host)).1 ≡ source
unfolding execute_read_buffer execute_write_buffer
read-write_buffer m address source host w fits valid same =
    let there =
      load_back m address source (store m address source) valid
        (store_lem m address source w fits) in
    ap (λ xs. delivered (load (store m address xs).0 address (length source)).1 host 0)
      (slice_all source)
    ∙ ap (λ o. delivered o host 0) there
    ∙ overwrite_all host source same
