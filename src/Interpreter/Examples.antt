-- ===== src/Interpreter/Examples.antt =====
-- Runs of the model of src/core/WorkItem.cpp at concrete inputs: vectors of two 16-bit integers, two phi nodes that
-- swap values, and a return.
use oclgrind.Base.{◌^◌, ◌≡◌, ◌⊎◌, ◌+◌, inr, refl, false, [], ◌∷◌, ok, arith, negsuc}
use oclgrind.Interpreter.Values.{TypedValue}
use oclgrind.Interpreter.Values.Laws.{IsFull, at}
use oclgrind.Interpreter.Integers.{add, sub, mul, sdiv, srem, icmp, icmp_slt, sext, itrunc}
use oclgrind.Interpreter.Builtins.{umul_hi, short, add_sat}
use oclgrind.Interpreter.Builtins.High.{umul_hi_lem}
use oclgrind.Interpreter.Builtins.Saturation.{Saturates, add_sat-Saturates}
use oclgrind.Interpreter.Integers.Elements.{Sets, IsLike}
use oclgrind.Interpreter.Integers.Modular.{arithmetic_mod}
use oclgrind.Interpreter.Integers.Signed.{signed_at}
use oclgrind.Interpreter.Integers.Division.{sdiv-srem}
use oclgrind.Interpreter.Integers.Compare.{Meets, icmp-Meets}
use oclgrind.Interpreter.Integers.Conversions.{itrunc-sext}

-- (-7, 300) and (2, 7)
abbrev dividends : TypedValue
dividends = record { size = 2; num = 2; bytes = 249 ∷ 255 ∷ 44 ∷ 1 ∷ [] }

abbrev divisors : TypedValue
divisors = record { size = 2; num = 2; bytes = 2 ∷ 0 ∷ 7 ∷ 0 ∷ [] }

abbrev room : TypedValue
room = record { size = 2; num = 2; bytes = 0 ∷ 0 ∷ 0 ∷ 0 ∷ [] }

abbrev wide_room : TypedValue
wide_room = record { size = 4; num = 2; bytes = 0 ∷ 0 ∷ 0 ∷ 0 ∷ 0 ∷ 0 ∷ 0 ∷ 0 ∷ [] }

dividends-IsFull : IsFull dividends
dividends-IsFull = record {
  int_size = refl;
  full = refl;
  are_bytes = (omega arith, (omega arith, (omega arith, (omega arith, tt))));
}

divisors-IsFull : IsFull divisors
divisors-IsFull = record {
  int_size = refl;
  full = refl;
  are_bytes = (omega arith, (omega arith, (omega arith, (omega arith, tt))));
}

room-IsFull : IsFull room
room-IsFull = record {
  int_size = refl;
  full = refl;
  are_bytes = (omega arith, (omega arith, (omega arith, (omega arith, tt))));
}

wide_room-IsFull : IsFull wide_room
wide_room-IsFull = record {
  int_size = refl;
  full = refl;
  are_bytes = (
    omega arith,
    (
      omega arith,
      (omega arith, (omega arith, (omega arith, (omega arith, (omega arith, (omega arith, tt)))))),
    ),
  );
}

dividends-IsLike : IsLike room dividends
dividends-IsLike = record { is_full = dividends-IsFull; like_size = refl; like_num = refl }

divisors-IsLike : IsLike room divisors
divisors-IsLike = record { is_full = divisors-IsFull; like_size = refl; like_num = refl }

arithmetic_mod_example :
    Sets (add dividends divisors room) 0 (65531)
    × Sets (sub dividends divisors room) 0 65527
    × Sets (mul dividends divisors room) 0 65522
arithmetic_mod_example =
    arithmetic_mod dividends divisors room 0 room-IsFull dividends-IsLike divisors-IsLike
      (omega arith)

sdiv-srem_example :
    (q m : TypedValue) × (sdiv dividends divisors room ≡ ok q)
    × (srem dividends divisors room ≡ ok m)
    × (signed_at q 0 ≡ negsuc 2)
    × (signed_at m 0 ≡ negsuc 0)
sdiv-srem_example =
    sdiv-srem dividends divisors room 0 room-IsFull dividends-IsLike divisors-IsLike (omega arith)
      (λ e. absurd (ground arith)) (inr (λ e. absurd (ground arith)))

icmp-Meets_example :
    (t : TypedValue) × (icmp icmp_slt dividends divisors room ≡ ok t)
    × (((at t 0 ≡ 65535) × Meets 2 icmp_slt 65529 2)
        ⊎ ((at t 0 ≡ 0) × (¬ (Meets 2 icmp_slt 65529 2))))
icmp-Meets_example =
    icmp-Meets icmp_slt dividends divisors room 0 refl room-IsFull dividends-IsFull
      (record { is_full = divisors-IsFull; like_size = refl; like_num = refl }) refl (omega arith)

itrunc-sext_example :
    (t u : TypedValue) × (sext false dividends wide_room ≡ ok t)
    × (itrunc t room ≡ ok u)
    × (signed_at t 0 ≡ negsuc 6)
    × (at u 0 ≡ 65529)
itrunc-sext_example =
    itrunc-sext dividends wide_room room 0 dividends-IsFull wide_room-IsFull room-IsFull
      (record { wider = omega arith; as_many = refl })
      (record { wider = omega arith; as_many = refl }) refl (omega arith)

umul_hi_example : umul_hi (2 ^ 63 + 5) (2 ^ 40) 64 ≡ 2 ^ 39
umul_hi_example = umul_hi_lem (2 ^ 63 + 5) (2 ^ 40) (omega arith) (omega arith)

-- In a short, 300 + 7.
add_sat-Saturates_example :
    (s : TypedValue) × (add_sat short dividends divisors room ≡ ok s)
    × Saturates short 300 7 (at s 1)
add_sat-Saturates_example =
    add_sat-Saturates short dividends divisors room 1 (λ e. absurd (ground arith)) refl room-IsFull
      dividends-IsLike divisors-IsLike (omega arith) (λ j l. tt)
