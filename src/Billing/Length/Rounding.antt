-- ===== src/Billing/Length/Rounding.antt =====
-- How `getCallLength` and `getCallLengthNNP` round.
use native.Mathlib.Nat.{div-add-mod'}
use voipbill.Prelude.{
  ℕ, suc, ◌+◌, ◌-◌, ◌*◌, ◌/◌, ◌%◌, ◌≤◌, ◌<◌, ◌≡◌, ◌⊎◌, ◌≢◌, inl, inr, Bool, ◌&&◌, ◌==◌,
  if◌then◌else◌, leb, Bool-cases, ap, ◌∙◌, true, false, arith, ℤ, pos, clip, eqb_ℤ, some, none,
  abs_ℤ, leb_ℤ, Option, ◌≤ℤ◌, ◌<ℤ◌,
}
use voipbill.Billing.Length.{
  to_interval, nonzero_interval, call_length, call_length_nnp, int_limit, call_length_int,
}

-- A call that is longer than 0 seconds and, where the free seconds apply, longer than these is
-- billed for no less than its length and for less than a minute more: by
-- minutes, for whole minutes; by seconds, exactly, or for 60 seconds if it is shorter and the
-- first minute is billed in full.
pub call_length_rounds :
    (free len : ℤ) (by_minutes full first : Bool)
    → pos 0 <ℤ len
    → (first ≡ false) ⊎ (free <ℤ len)
    → let billed = call_length free len by_minutes full first in
      (clip len ≤ billed)
      × (billed < clip len + 60)
      × (((by_minutes ≡ true) × (billed % 60 ≡ 0))
          ⊎ ((by_minutes ≡ false) × (billed ≡ clip len))
          ⊎ ((by_minutes ≡ false) × (full ≡ true) × (clip len < 60) × (billed ≡ 60)))
unfolding call_length
call_length_rounds free len true full first h k = (ground arith, ground arith, inl (ground arith))
call_length_rounds free len false full first h k = (ground arith, ground arith, ground arith)

-- A longer call is never billed for less.
pub call_length_mono :
    (free a b : ℤ) (by_minutes full first : Bool)
    → a ≤ℤ b
    → call_length free a by_minutes full first ≤ call_length free b by_minutes full first
unfolding call_length
call_length_mono free a b by_minutes full first h = ground arith

-- What the `int` arithmetic makes of a length: the result of the unbounded one, which is an `int`,
-- or an overflow, in a minute tariff, of a length in the last minute below the limit.
abbrev pub IsInt : (free len : ℤ) (by_minutes full first : Bool) → Option ℕ → Type 0
IsInt free len by_minutes full first none =
    (by_minutes ≡ true) × (pos (int_limit - 60) ≤ℤ len) × (clip len % 60 ≢ 0)
IsInt free len by_minutes full first (some billed) =
    (billed ≡ call_length free len by_minutes full first) × (billed < int_limit)

-- For a length below the limit of `int`, either no intermediate sum of `getCallLength` overflows,
-- its result is that of the unbounded `call_length`, and it is below the limit, too; or there is an
-- overflow, the call is billed by minutes, the length is less than 61 seconds below the limit, and
-- it is no multiple of 60.
pub call_length_int-IsInt :
    (free len : ℤ) (by_minutes full first : Bool)
    → len <ℤ pos int_limit
    → IsInt free len by_minutes full first (call_length_int free len by_minutes full first)
unfolding call_length call_length_int
call_length_int-IsInt free len by_minutes full first h = elim (Bool-cases (leb_ℤ len (pos 0))) [
  | inl e ↦ ground arith
  | inr e ↦ ground arith
]

-- `b` is `k` intervals of `w` seconds: the multiple nearest to `n`, or the next one.
abbrev pub IsRounded : (nearest : Bool) (n w k b : ℕ) → Type 0
IsRounded true n w k b = (b ≡ k * w) × (2 * b ≤ 2 * n + w) × (2 * n ≤ 2 * b + w)
IsRounded false n w k b = (b ≡ k * w) × (n ≤ b) × (b < n + w)

-- Past the free and the minimal paid seconds, at a positive interval.
abbrev rounded : (nearest : Bool) (n w : ℕ) → ℕ
rounded nearest n w =
    if n % w == 0 then n else if leb (n % w) (w / 2) && nearest then n / w * w else (n / w + 1) * w

-- On an interval that is positive the integer arithmetic is that of the numbers.
to_interval_pos :
    (n i : ℕ) (type : ℤ)
    → to_interval n (pos (suc i)) type ≡ pos (rounded (eqb_ℤ type (pos 1)) n (suc i))
to_interval_pos n i type = ground arith

past_limits :
    (n i : ℕ) (free type min : ℤ)
    → abs_ℤ free < n
    → abs_ℤ min < n
    → call_length_nnp (pos n) free (pos (suc i)) type min
      ≡ pos (rounded (eqb_ℤ type (pos 1)) n (suc i))
past_limits n i free type min h k =
    opened ∙ ap (λ w. to_interval n w type) positive ∙ to_interval_pos n i type
  where
    opened :
        call_length_nnp (pos n) free (pos (suc i)) type min
        ≡ to_interval n (nonzero_interval (pos (suc i))) type
    opened = unfold call_length_nnp in ground arith

    positive : nonzero_interval (pos (suc i)) ≡ pos (suc i)
    positive = ground arith

-- With type 1 a call of `n` seconds that is longer than the minimal paid seconds may be rounded
-- down below them. It is then billed for less than a call of just the minimal paid seconds.
pub call_length_nnp_not_mono :
    (n i m : ℕ) (free : ℤ)
    → abs_ℤ free < m
    → m < n
    → n % suc i ≤ suc i / 2
    → n / suc i * suc i < m
    → call_length_nnp (pos n) free (pos (suc i)) (pos 1) (pos m)
      <ℤ call_length_nnp (pos m) free (pos (suc i)) (pos 1) (pos m)
call_length_nnp_not_mono n i m free h k e l =
    rw (past_limits n i free (pos 1) (pos m) (omega arith) k, shorter)
      (ground (arith, div-add-mod' n (suc i)))
  where
    shorter : call_length_nnp (pos m) free (pos (suc i)) (pos 1) (pos m) ≡ pos m
    shorter = unfold call_length_nnp in ground arith
