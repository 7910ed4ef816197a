-- ===== src/Interpreter/Machine/Frames.antt =====
-- src/core/WorkItem.cpp: a return ends the frame of its call: the caller goes on, with the value, and what the function
-- allocated in private memory is freed.
use oclgrind.Base.{
  ℕ, ◌<◌, ◌≡◌, ◌≢◌, refl, sym, ap, ◌∙◌, List, [], ◌∷◌, none, some, ok, ◌>>=◌, length, false, All,
  get_elem?, get_elem?-set_self, size_mod, All-map,
}
use oclgrind.Memory.{Memory, Buffer, slot, extract_buffer, is_address_valid}
use oclgrind.Memory.Invariant.{Wf}
use oclgrind.Memory.Lifetime.{
  released, Deallocated, deallocate_buffer-Deallocated, invalid_of_empty,
}
use oclgrind.Interpreter.Values.{TypedValue}
use oclgrind.Interpreter.Code.{Operand, value, constant, unhandled, Instruction, Code}
use oclgrind.Interpreter.WorkItem.{WorkItem, found, get_operand, set_value}
use oclgrind.Interpreter.Machine.{free_all, inst_at, give_back, leave, exec_ret}

-- Addresses of live buffers, each of its own.
abbrev pub AreLive : Memory → List ℕ → Type 0
AreLive m [] = Unit
AreLive m (a ∷ addresses) =
    (a < size_mod)
    × ((b : Buffer) × (slot m (extract_buffer m a) ≡ some b))
    × All (λ c. extract_buffer m a ≢ extract_buffer m c) addresses
    × AreLive m addresses

-- After the addresses are freed, in a memory of the same layout.
record Frees (m : Memory) (addresses : List ℕ) (m' : Memory) : Type 0 where
  pub same_layout : (c : ℕ) → extract_buffer m' c ≡ extract_buffer m c
  pub empty : All (λ a. slot m' (extract_buffer m a) ≡ none) addresses
  pub others : (j : ℕ) → All (λ a. extract_buffer m a ≢ j) addresses → slot m' j ≡ slot m j

AreLive-keep :
    (m m' : Memory) (a : ℕ) (addresses : List ℕ)
    → Deallocated m a m'
    → All (λ c. extract_buffer m a ≢ extract_buffer m c) addresses
    → AreLive m addresses
    → AreLive m' addresses
AreLive-keep m m' a [] d h k = tt
AreLive-keep m m' a (c ∷ addresses) d h k = (
  k.0,
  (k.1.0, ap (slot m') (d.same_layout c) ∙ d.others (extract_buffer m c) h.0 ∙ k.1.1),
  All-map (λ e. extract_buffer m c ≢ extract_buffer m e) addresses
      (λ e ne q. ne (sym (d.same_layout c) ∙ q ∙ d.same_layout e)) k.2,
  AreLive-keep m m' a addresses d h.1 k.3,
)

free_all-Frees :
    (m : Memory) (addresses : List ℕ)
    → Wf m
    → AreLive m addresses
    → (m' : Memory) × (free_all m addresses ≡ ok m') × Frees m addresses m'
unfolding free_all
free_all-Frees m [] w k =
    (m, refl, record { same_layout = λ c. refl; empty = tt; others = λ j h. refl })
free_all-Frees m (a ∷ addresses) w k =
    let m1 = released m a (extract_buffer m a) k.1.0 in
    let d = deallocate_buffer-Deallocated m a k.1.0 w k.0 k.1.1 in
    let rest = free_all-Frees m1 addresses d.still_wf (AreLive-keep m m1 a addresses d k.2 k.3) in
    (
      rest.0,
      rw (d.is_done, free_all) rest.1,
      record {
        same_layout = λ c. rest.2.same_layout c ∙ d.same_layout c;
        empty = (
          rest.2.others (extract_buffer m a) (
                All-map (λ c. extract_buffer m a ≢ extract_buffer m c) addresses
                  (λ c ne q. ne (sym q ∙ d.same_layout c)) k.2)
              ∙ d.is_empty,
          All-map (λ c. slot rest.0 (extract_buffer m1 c) ≡ none) addresses
              (λ c e. ap (slot rest.0) (sym (d.same_layout c)) ∙ e) rest.2.empty,
        );
        others = λ j h.
            rest.2.others j (
              All-map (λ c. extract_buffer m c ≢ j) addresses
                (λ c ne q. ne (sym (d.same_layout c) ∙ q)) h.1)
            ∙ d.others j h.0;
      },
    )

-- The caller's position after a return.
pub record IsBack (w : WorkItem) (block index : ℕ) (calls : List (ℕ × ℕ)) (frames : List (List ℕ))
    : Type 0 where
  pub block_back : w.position.curr_block ≡ block
  pub index_back : w.position.curr_inst ≡ index
  pub calls_back : w.position.call_stack ≡ calls
  pub frames_back : w.position.allocations ≡ frames

get_operand-values :
    (w w' : WorkItem) (a : Operand) → w'.values ≡ w.values → get_operand w' a ≡ get_operand w a
unfolding get_operand
get_operand-values w w' (value id) e = ap (λ vs. found (get_elem? vs id)) e
get_operand-values w w' (constant v) e = refl
get_operand-values w w' unhandled e = refl

give_back_lem :
    (code : Code) (w : WorkItem) (v : Operand) (r : TypedValue) (i : Instruction)
    → inst_at code w.position.curr_block w.position.curr_inst ≡ some i
    → get_operand w v ≡ ok r
    → give_back code w (some v) ≡ ok (set_value w i.id r)
unfolding give_back
give_back_lem code w v r i ei er = rw (ei, er, give_back) refl

leave_lem :
    (w : WorkItem) (m : Memory) (top : List ℕ) (frames : List (List ℕ))
    → w.position.allocations ≡ top ∷ frames
    → free_all w.private top ≡ ok m
    → leave w
      ≡ ok (record w { private = m; position = record (w.position) { allocations = frames } })
unfolding leave
leave_lem w m top frames ea em = rw (ea, em, leave) refl

-- A return with a value from a called function, where the value is set, the private memory is well
-- formed and what the frame allocated is live, each in a buffer of its own, succeeds: the caller
-- is at its call, with the frames below, the call has the value, and no access to what the frame
-- allocated is valid.
pub exec_ret-Frees :
    (code : Code) (w : WorkItem) (v : Operand) (r : TypedValue) (i : Instruction)
    (block index n : ℕ) (calls : List (ℕ × ℕ)) (top : List ℕ) (frames : List (List ℕ))
    → w.position.call_stack ≡ (block, index) ∷ calls
    → w.position.allocations ≡ top ∷ frames
    → inst_at code block index ≡ some i
    → get_operand w v ≡ ok r
    → i.id < length w.values
    → Wf w.private
    → AreLive w.private top
    → (w' : WorkItem) × (exec_ret code w (some v) ≡ ok w')
      × IsBack w' block index calls frames
      × (get_elem? w'.values i.id ≡ some (some r))
      × All (λ a. is_address_valid w'.private a n ≡ false) top
unfolding exec_ret set_value
exec_ret-Frees code w v r i block index n calls top frames ec ea ei er l wf live =
    let m = free_all-Frees w.private top wf live in
    let back = record w {
      position = record (w.position) { curr_inst = index; curr_block = block; call_stack = calls };
    } in
    let set_back = set_value back i.id r in
    (
      record set_back {
        private = m.0;
        position = record (set_back.position) { allocations = frames };
      },
      rw (ec, exec_ret)
          (ap (λ o. o >>= leave)
              (give_back_lem code back v r i ei (get_operand-values w back v refl ∙ er))
            ∙ leave_lem set_back m.0 top frames ea m.1),
      record { block_back = refl; index_back = refl; calls_back = refl; frames_back = refl },
      get_elem?-set_self w.values i.id (some r) l,
      All-map (λ a. slot m.0 (extract_buffer w.private a) ≡ none) top
          (λ a e. invalid_of_empty m.0 a n (ap (slot m.0) (m.2.same_layout a) ∙ e)) m.2.empty,
    )
