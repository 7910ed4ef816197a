-- ===== src/Commands/Examples.antt =====
-- The theorems on commands at a global memory with one buffer.
use oclgrind.Base.{◌+◌, ◌≡◌, refl, [], ◌∷◌}
use oclgrind.Memory.Examples.{one_buffer, one_buffer-Wf, first, three_fit, three_valid}
use oclgrind.Commands.{BufferCommand, execute_read_buffer, execute_write_buffer}
use oclgrind.Commands.Effects.{read-write_buffer}

read-write_buffer_example :
    let c : BufferCommand = record { address = first + 1; size = 3 } in
    (execute_read_buffer c (execute_write_buffer c (7 ∷ 8 ∷ 9 ∷ []) one_buffer, 0 ∷ 0 ∷ 0 ∷ [])).1
    ≡ 7 ∷ 8 ∷ 9 ∷ []
read-write_buffer_example =
    read-write_buffer one_buffer (first + 1) (7 ∷ 8 ∷ 9 ∷ []) (0 ∷ 0 ∷ 0 ∷ []) one_buffer-Wf
      three_fit three_valid refl
