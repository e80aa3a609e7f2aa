-- ===== src/Billing/Length.antt =====
-- The billed length of a call: `getCallLength` of src-bill/classes/BillingCall.cpp and
-- `getCallLengthNNP` of src-bill/classes/BillingCall_nnp.cpp. A length that is not positive is
-- billed as 0, so the results that the first can return are numbers; the second is an integer,
-- since its interval may be negative.
pub mod Rounding
pub mod Examples
use voipbill.Prelude.{
  ℕ, suc, ◌+◌, ◌-◌, ◌*◌, ◌/◌, ◌%◌, ◌^◌, Option, none, some, Bool, true, false, ◌&&◌, ltb, leb, ◌==◌,
  if◌then◌else◌, ℤ, pos, clip, abs_ℤ, ◌+ℤ◌, ◌*ℤ◌, ◌/ℤ◌, leb_ℤ, eqb_ℤ,
}

-- Up to the next whole minute.
abbrev pub whole_minutes : ℕ → ℕ
whole_minutes n = let s = n % 60 in if s == 0 then n else n + 60 - s

-- `free_seconds` is `app().conf.billing_free_seconds`. The numbers are unbounded: where the `int` of
-- `len + 60` overflows, see `call_length_int`.
pub call_length : (free_seconds len : ℤ) (by_minutes full_first_minute free_first : Bool) → ℕ
call_length free_seconds len by_minutes full_first_minute free_first =
    if free_first && leb_ℤ len free_seconds
    then 0
    else if leb_ℤ len (pos 0)
    then 0
    else if by_minutes
    then whole_minutes (clip len)
    else if full_first_minute && ltb (clip len) 60
    then 60
    else clip len

-- 2 ^ 31, the first number above the `int` of 32 bits.
abbrev pub int_limit : ℕ
int_limit = 2 ^ 31

-- `a + b` of numbers that are not negative: an overflow is undefined behaviour.
abbrev pub add_int : ℕ → ℕ → Option ℕ
add_int a b = if ltb (a + b) int_limit then some (a + b) else none

abbrev pub whole_minutes_int : ℕ → Option ℕ
whole_minutes_int n =
    let s = n % 60 in
    if s == 0 then some n else elim (add_int n 60) [ none ↦ none | some m ↦ some (m - s) ]

-- `getCallLength` with the `int` of its sum written out, for a `len` that is an `int`.
pub call_length_int :
    (free_seconds len : ℤ) (by_minutes full_first_minute free_first : Bool) → Option ℕ
call_length_int free_seconds len by_minutes full_first_minute free_first =
    if free_first && leb_ℤ len free_seconds
    then some 0
    else if leb_ℤ len (pos 0)
    then some 0
    else if by_minutes
    then whole_minutes_int (clip len)
    else if full_first_minute && ltb (clip len) 60
    then some 60
    else some (clip len)

abbrev pub nonzero_interval : ℤ → ℤ
nonzero_interval i = if eqb_ℤ i (pos 0) then pos 1 else i

-- `n` is the length, which is positive here, and `i` the interval, which is not 0.
abbrev pub to_interval : (n : ℕ) (i type : ℤ) → ℤ
to_interval n i type =
    let s = n % abs_ℤ i in
    if s == 0
    then pos n
    else if leb_ℤ (pos s) (i /ℤ pos 2) && eqb_ℤ type (pos 1)
    then (pos n /ℤ i) *ℤ i
    else (pos n /ℤ i +ℤ pos 1) *ℤ i

pub call_length_nnp : (len free_seconds interval_seconds type min_paid_seconds : ℤ) → ℤ
call_length_nnp len free_seconds interval_seconds type min_paid_seconds =
    if leb_ℤ len (pos 0)
    then pos 0
    else if leb_ℤ len (pos (abs_ℤ free_seconds))
    then pos 0
    else if leb_ℤ len (pos (abs_ℤ min_paid_seconds))
    then pos (abs_ℤ min_paid_seconds)
    else to_interval (clip len) (nonzero_interval interval_seconds) type
