-- ===== src/Time/Examples.antt =====
-- The calendar at a concrete time, 31 January 1970 in Moscow.
use voipbill.Prelude.{◌≡◌, ◌≤ℤ◌, pos, arith, refl}
use voipbill.Time.{get_tmonth, get_tmonth_end, get_tday, get_tday_end}
use voipbill.Time.Months.{get_tmonth_same, get_tday_bounds}

january : get_tmonth_end 2600000 (pos 3) ≡ pos 2667599
unfolding get_tmonth_end
january = refl

get_tday_bounds_example :
    (get_tmonth 2600000 (pos 3) ≤ℤ get_tday 2600000 (pos 3))
    × (get_tday 2600000 (pos 3) ≤ℤ pos 2600000)
    × (pos 2600000 ≤ℤ get_tday_end 2600000 (pos 3))
    × (get_tday_end 2600000 (pos 3) ≤ℤ get_tmonth_end 2600000 (pos 3))
get_tday_bounds_example = get_tday_bounds 2600000 (pos 3) (omega arith)

begins : get_tmonth 2600000 (pos 3) ≤ℤ pos 1000
unfolding get_tmonth
begins = omega arith

ends : pos 1000 ≤ℤ get_tmonth_end 2600000 (pos 3)
unfolding get_tmonth_end
ends = omega arith

get_tmonth_same_example :
    (get_tmonth 1000 (pos 3) ≡ get_tmonth 2600000 (pos 3))
    × (get_tmonth_end 1000 (pos 3) ≡ get_tmonth_end 2600000 (pos 3))
get_tmonth_same_example = get_tmonth_same 2600000 1000 (pos 3) (omega arith) begins ends
