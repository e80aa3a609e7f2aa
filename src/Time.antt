-- ===== src/Time.antt =====
-- `get_tday`, `get_tday_end`, `get_tmonth` and `get_tmonth_end` of src-bill/common.cpp, with the
-- calendar of the `gmtime_r` and `timegm` that they call. A time is a count of seconds since
-- 1970-01-01, also in the zone of the offset.
pub mod Months
pub mod Examples
use voipbill.Prelude.{
  ℕ, zero, suc, ◌+◌, ◌-◌, ◌*◌, ◌/◌, ◌%◌, Bool, ◌&&◌, ◌||◌, not, List, [], ◌∷◌, ltb, ◌==◌,
  if◌then◌else◌, ℤ, pos, clip, ◌+ℤ◌, ◌-ℤ◌, ◌*ℤ◌,
}

pub is_leap : ℕ → Bool
is_leap y = y % 4 == 0 && (not (y % 100 == 0) || y % 400 == 0)

pub month_lengths : ℕ → List ℕ
unfolding is_leap
month_lengths y =
    31 ∷ (if is_leap y then 29 else 28) ∷ 31 ∷ 30 ∷ 31 ∷ 30 ∷ 31 ∷ 31 ∷ 30 ∷ 31 ∷ 30 ∷ 31 ∷ []

-- The first day of a month, and the first day after it, counted from 1970-01-01.
pub record Month : Type 0 where
  pub first : ℕ
  pub next : ℕ

-- The month of day `day`, among those of the lengths given from day `first`, or else `rest` from
-- the day after them.
pub in_year : (lengths : List ℕ) (first day : ℕ) (rest : ℕ → Month) → Month
in_year [] first day rest = rest first
in_year (n ∷ ns) first day rest =
    let later = in_year ns (first + n) day rest in
    if ltb day (first + n) then record { first = first; next = first + n } else later

-- The years from `year` on, the first of which begins on day `first`.
pub month_from : (fuel year first day : ℕ) → Month
unfolding in_year month_lengths
month_from zero year first day = record { first = first; next = first }
month_from (suc fuel) year first day =
    in_year (month_lengths year) first day (λ first'. month_from fuel (year + 1) first' day)

-- A year has more days than one, so the day itself is fuel enough.
pub month_of : ℕ → Month
unfolding month_from
month_of day = month_from (day + 1) 1970 0 day

-- Seconds in the zone; 0 for a time before 1970.
abbrev pub local : (timestamp : ℕ) (offset : ℤ) → ℕ
local timestamp offset = clip (pos timestamp +ℤ pos 3600 *ℤ offset)

abbrev pub to_utc : ℕ → ℤ → ℤ
to_utc t offset = pos t -ℤ pos 3600 *ℤ offset

pub get_tday : ℕ → ℤ → ℤ
get_tday timestamp offset = to_utc (local timestamp offset / 86400 * 86400) offset

pub get_tday_end : ℕ → ℤ → ℤ
unfolding get_tday
get_tday_end timestamp offset = get_tday timestamp offset +ℤ pos 86399

pub get_tmonth : ℕ → ℤ → ℤ
unfolding month_of
get_tmonth timestamp offset =
    to_utc ((month_of (local timestamp offset / 86400)).first * 86400) offset

pub get_tmonth_end : ℕ → ℤ → ℤ
unfolding month_of
get_tmonth_end timestamp offset =
    to_utc ((month_of (local timestamp offset / 86400)).next * 86400) offset -ℤ pos 1
