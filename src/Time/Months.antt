-- ===== src/Time/Months.antt =====
-- A time lies in its day and in its month, and a month is the same for each of its times.
use voipbill.Prelude.{
  ℕ, zero, suc, ◌+◌, ◌*◌, ◌/◌, ◌≤◌, ◌<◌, ◌≡◌, inl, inr, List, [], ◌∷◌, ltb, arith, ℤ, pos, negsuc,
  clip, ◌+ℤ◌, ◌-ℤ◌, ◌*ℤ◌, ◌≤ℤ◌, Bool-cases, false,
}
use voipbill.Time.{
  month_lengths, Month, in_year, month_from, month_of, local, get_tday, get_tday_end, get_tmonth,
  get_tmonth_end,
}

abbrev sum : List ℕ → ℕ
sum [] = 0
sum (n ∷ ns) = n + sum ns

-- `day` is in the month `m`, which is not before `first`.
abbrev Holds : (first day : ℕ) → Month → Type 0
Holds first day m = (first ≤ m.first) × (m.first ≤ day) × (day < m.next)

in_year-Holds :
    (ns : List ℕ) (first day : ℕ) (rest : ℕ → Month)
    → first ≤ day
    → (first + sum ns ≤ day → Holds (first + sum ns) day (rest (first + sum ns)))
    → Holds first day (in_year ns first day rest)
unfolding in_year
in_year-Holds [] first day rest h k =
    let e : first + 0 ≡ first = omega arith in rw e at (k (omega arith))
in_year-Holds (n ∷ ns) first day rest h k =
    let e : first + (n + sum ns) ≡ first + n + sum ns = omega arith in
    elim (Bool-cases (ltb day (first + n))) [
      | inl p ↦ rw p (ground arith)
      | inr p ↦
          let later =
            in_year-Holds ns (first + n) day rest (ground arith) (λ q. rw e at (k (omega arith))) in
          rw p (omega (arith, later))
    ]

in_year_same :
    (ns : List ℕ) (first day day' : ℕ) (rest rest' : ℕ → Month)
    → first ≤ day
    → (first + sum ns ≤ day → Holds (first + sum ns) day (rest (first + sum ns)))
    → (in_year ns first day rest).first ≤ day'
    → day' < (in_year ns first day rest).next
    → (let f = first + sum ns in
        f ≤ day → (rest f).first ≤ day' → day' < (rest f).next → rest' f ≡ rest f)
    → in_year ns first day' rest' ≡ in_year ns first day rest
unfolding in_year
in_year_same [] first day day' rest rest' h k p q same =
    let e : first + 0 ≡ first = omega arith in let s = rw e at same in s h p q
in_year_same (n ∷ ns) first day day' rest rest' h k p q same =
    let e : first + (n + sum ns) ≡ first + n + sum ns = omega arith in
    elim (Bool-cases (ltb day (first + n))) [
      | inl b ↦ ground arith
      | inr b ↦
          let start : first + n ≤ day = ground arith in
          let held : first + n + sum ns ≤ day
              → Holds (first + n + sum ns) day (rest (first + n + sum ns)) =
            λ t. rw e at (k (omega arith)) in
          let later = in_year-Holds ns (first + n) day rest start held in
          let p' : (in_year ns (first + n) day rest).first ≤ day' = ground arith in
          let q' : day' < (in_year ns (first + n) day rest).next = ground arith in
          let b' : ltb day' (first + n) ≡ false = ground (arith, later) in
          rw (b, b')
            (in_year_same ns (first + n) day day' rest rest' start held p' q' (rw e at same))
    ]

month_from-Holds :
    (fuel year first day : ℕ)
    → first ≤ day
    → day < first + fuel
    → Holds first day (month_from fuel year first day)
unfolding month_from month_lengths
month_from-Holds zero year first day h k = absurd (omega arith)
month_from-Holds (suc fuel) year first day h k =
    in_year-Holds (month_lengths year) first day (λ f. month_from fuel (year + 1) f day) h
      λ p. month_from-Holds fuel (year + 1) (first + sum (month_lengths year)) day p (omega arith)

month_from_same :
    (fuel fuel' year first day day' : ℕ)
    → first ≤ day
    → day < first + fuel
    → first ≤ day'
    → day' < first + fuel'
    → (month_from fuel year first day).first ≤ day'
    → day' < (month_from fuel year first day).next
    → month_from fuel' year first day' ≡ month_from fuel year first day
unfolding month_from month_lengths
month_from_same zero fuel' year first day day' h k h' k' p q = absurd (omega arith)
month_from_same (suc fuel) zero year first day day' h k h' k' p q = absurd (omega arith)
month_from_same (suc fuel) (suc fuel') year first day day' h k h' k' p q =
    let f = first + sum (month_lengths year) in
    in_year_same (month_lengths year) first day day' (λ f'. month_from fuel (year + 1) f' day)
      (λ f'. month_from fuel' (year + 1) f' day') h
      (λ t. month_from-Holds fuel (year + 1) f day t (omega arith)) p q
      (λ t u v.
        let held = month_from-Holds fuel (year + 1) f day t (omega arith) in
        month_from_same fuel fuel' (year + 1) f day day' t (omega arith) (omega (arith, held))
          (omega arith) u v)

month_of-Holds : (day : ℕ) → Holds 0 day (month_of day)
unfolding month_of
month_of-Holds day = month_from-Holds (day + 1) 1970 0 day (omega arith) (omega arith)

month_of_same :
    (day day' : ℕ)
    → (month_of day).first ≤ day'
    → day' < (month_of day).next
    → month_of day' ≡ month_of day
unfolding month_of
month_of_same day day' =
    month_from_same (day + 1) (day' + 1) 1970 0 day day' (omega arith) (omega arith) (omega arith)
      (omega arith)

-- Between the times of UTC and those of a zone that is `o` seconds ahead.
module _ (a u : ℕ) where
  local-ge : (o : ℤ) → pos 0 ≤ℤ pos u +ℤ o → pos a -ℤ o ≤ℤ pos u → a ≤ clip (pos u +ℤ o)
  local-ge (pos n) h k = ground arith
  local-ge (negsuc n) h k = ground arith

  local-lt : (o : ℤ) → pos 0 ≤ℤ pos u +ℤ o → pos u ≤ℤ pos a -ℤ o -ℤ pos 1 → clip (pos u +ℤ o) < a
  local-lt (pos n) h k = ground arith
  local-lt (negsuc n) h k = ground arith

  utc-le : (o : ℤ) → pos 0 ≤ℤ pos u +ℤ o → a ≤ clip (pos u +ℤ o) → pos a -ℤ o ≤ℤ pos u
  utc-le (pos n) h k = ground arith
  utc-le (negsuc n) h k = ground arith

  le-utc :
      (o : ℤ)
      → pos 0 ≤ℤ pos u +ℤ o
      → clip (pos u +ℤ o) ≤ a + 86399
      → pos u ≤ℤ pos a -ℤ o +ℤ pos 86399
  le-utc (pos n) h k = ground arith
  le-utc (negsuc n) h k = ground arith

  utc_mono : (o : ℤ) → a ≤ u → pos a -ℤ o ≤ℤ pos u -ℤ o
  utc_mono (pos n) h = ground arith
  utc_mono (negsuc n) h = ground arith

  utc_end_mono : (o : ℤ) → a + 86400 ≤ u → pos a -ℤ o +ℤ pos 86399 ≤ℤ pos u -ℤ o -ℤ pos 1
  utc_end_mono (pos n) h = ground arith
  utc_end_mono (negsuc n) h = ground arith

-- Any two times of a month, in the zone of the offset, have the same month.
pub get_tmonth_same :
    (t u : ℕ) (offset : ℤ)
    → pos 0 ≤ℤ pos u +ℤ pos 3600 *ℤ offset
    → get_tmonth t offset ≤ℤ pos u
    → pos u ≤ℤ get_tmonth_end t offset
    → (get_tmonth u offset ≡ get_tmonth t offset)
      × (get_tmonth_end u offset ≡ get_tmonth_end t offset)
unfolding get_tmonth get_tmonth_end
get_tmonth_same t u offset k p q =
    let o = pos 3600 *ℤ offset in
    let m = month_of (local t offset / 86400) in
    let above = local-ge (m.first * 86400) u o k p in
    let below = local-lt (m.next * 86400) u o k q in
    let e =
      month_of_same (local t offset / 86400) (local u offset / 86400) (omega (arith, above))
        (omega (arith, below)) in
    (rw e, rw e)

-- A time is in its day, in the zone of the offset, and its day in its month.
pub get_tday_bounds :
    (t : ℕ) (offset : ℤ)
    → pos 0 ≤ℤ pos t +ℤ pos 3600 *ℤ offset
    → (get_tmonth t offset ≤ℤ get_tday t offset)
      × (get_tday t offset ≤ℤ pos t)
      × (pos t ≤ℤ get_tday_end t offset)
      × (get_tday_end t offset ≤ℤ get_tmonth_end t offset)
unfolding get_tmonth get_tmonth_end get_tday get_tday_end
get_tday_bounds t offset h =
    let o = pos 3600 *ℤ offset in
    let d = local t offset / 86400 in
    let held = month_of-Holds d in
    (
      utc_mono ((month_of d).first * 86400) (d * 86400) o (omega (arith, held)),
      utc-le (d * 86400) t o h (omega arith),
      le-utc (d * 86400) t o h (omega arith),
      utc_end_mono (d * 86400) ((month_of d).next * 86400) o (omega (arith, held)),
    )
