-- ===== src/Billing/Length/Examples.antt =====
-- The lengths at concrete calls.
use voipbill.Prelude.{
  ◌+◌, ◌%◌, ◌^◌, ◌≤◌, ◌<◌, ◌≡◌, ◌⊎◌, ◌<ℤ◌, refl, ◌-◌, none, inr, arith, true, false, pos, negsuc,
}
use voipbill.Billing.Length.{call_length, call_length_nnp, call_length_int}
use voipbill.Billing.Length.Rounding.{
  call_length_rounds, call_length_mono, IsInt, call_length_int-IsInt, call_length_nnp_not_mono,
}

by_minutes : call_length (pos 5) (pos 61) true false true ≡ 120
unfolding call_length
by_minutes = refl

by_seconds : call_length_nnp (pos 95) (pos 0) (pos 60) (pos 1) (pos 0) ≡ pos 120
unfolding call_length_nnp
by_seconds = refl

call_length_rounds_example :
    let billed = call_length (pos 5) (pos 61) true false true in
    (61 ≤ billed)
    × (billed < 61 + 60)
    × (((true ≡ true) × (billed % 60 ≡ 0))
        ⊎ ((true ≡ false) × (billed ≡ 61))
        ⊎ ((true ≡ false) × (false ≡ true) × (61 < 60) × (billed ≡ 60)))
call_length_rounds_example =
    call_length_rounds (pos 5) (pos 61) true false true (omega arith) (inr (omega arith))

call_length_mono_example :
    call_length (pos 5) (pos 4) true false true ≤ call_length (pos 5) (pos 61) true false true
call_length_mono_example = call_length_mono (pos 5) (pos 4) (pos 61) true false true (omega arith)

overflow : call_length_int (pos 5) (pos (2 ^ 31 - 60)) true false true ≡ none
unfolding call_length_int
overflow = refl

call_length_int-IsInt_example :
    IsInt (pos 5) (pos 61) true false true (call_length_int (pos 5) (pos 61) true false true)
call_length_int-IsInt_example = call_length_int-IsInt (pos 5) (pos 61) true false true (omega arith)

call_length_nnp_not_mono_example :
    call_length_nnp (pos 75) (pos 0) (pos 60) (pos 1) (pos 70)
    <ℤ call_length_nnp (pos 70) (pos 0) (pos 60) (pos 1) (pos 70)
call_length_nnp_not_mono_example =
    call_length_nnp_not_mono 75 59 70 (pos 0) (omega arith) (omega arith) (omega arith)
      (omega arith)

-- A negative interval is taken as it is, unlike a negative number of free or minimal seconds: a
-- call of 90 seconds is billed for none.
negative_interval : call_length_nnp (pos 90) (pos 0) (negsuc 59) (pos 0) (pos 0) ≡ pos 0
unfolding call_length_nnp
negative_interval = refl
