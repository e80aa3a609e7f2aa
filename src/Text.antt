-- ===== src/Text.antt =====
-- What the billing does with C strings, which are lists of codes with no terminating 0: `atoll`,
-- `sprintf("%lld")`, `strstr`, `strcmp`, and the search over ever shorter prefixes.
pub mod Prefix
pub mod Examples
use voipbill.Prelude.{
  ℕ, zero, suc, ◌+◌, ◌-◌, ◌*◌, ◌/◌, ◌%◌, ◌^◌, Bool, true, false, ◌&&◌, ◌||◌, Option, none, some,
  List, [], ◌∷◌, ◌++◌, ltb, leb, ◌==◌, if◌then◌else◌, take, length, ℤ, pos, negsuc, sub_ℕ,
}

pub is_digit : ℕ → Bool
is_digit c = leb b'0' c && leb c b'9'

pub is_space : ℕ → Bool
is_space c = c == 32 || leb 9 c && leb c 13

-- The number that the leading digits write.
pub digits_value : ℕ → List ℕ → ℕ
unfolding is_digit
digits_value acc [] = acc
digits_value acc (c ∷ s) =
    let rest = digits_value (acc * 10 + (c - b'0')) s in if is_digit c then rest else acc

abbrev pub min_ℕ : ℕ → ℕ → ℕ
min_ℕ a b = if ltb a b then a else b

-- The sign, then the digits; a number outside `long long` becomes the nearest one inside.
signed_value : List ℕ → ℤ
unfolding digits_value
signed_value [] = pos 0
signed_value (c ∷ s) =
    if c == b'-'
    then sub_ℕ 0 (min_ℕ (digits_value 0 s) (2 ^ 63))
    else if c == b'+'
    then pos (min_ℕ (digits_value 0 s) (2 ^ 63 - 1))
    else pos (min_ℕ (digits_value 0 (c ∷ s)) (2 ^ 63 - 1))

pub atoll : List ℕ → ℤ
unfolding is_space signed_value
atoll [] = pos 0
atoll (c ∷ s) = let rest = atoll s in if is_space c then rest else signed_value (c ∷ s)

-- The decimal digits of a number with at most `fuel` of them, in front of `out`.
pub print_digits : (fuel n : ℕ) (out : List ℕ) → List ℕ
print_digits zero n out = out
print_digits (suc fuel) n out =
    let rest = print_digits fuel (n / 10) ((b'0' + n % 10) ∷ out) in
    if ltb n 10 then (b'0' + n) ∷ out else rest

-- `sprintf(buffer, "%lld", n)`. A `long long` has at most 19 digits.
unfoldable pub print_ll : ℤ → List ℕ
unfolding print_digits
print_ll (pos n) = print_digits 20 n []
print_ll (negsuc n) = b'-' ∷ print_digits 20 (suc n) []

-- What follows `pattern` at the head of a text.
unfoldable pub strip : (pattern s : List ℕ) → Option (List ℕ)
strip [] s = some s
strip (p ∷ ps) [] = none
strip (p ∷ ps) (c ∷ s) = let rest = strip ps s in if p == c then rest else none

-- `strstr(s, pattern) + strlen(pattern)`, or `none` for the null pointer.
pub after_first : (pattern s : List ℕ) → Option (List ℕ)
unfolding strip
after_first pattern [] = strip pattern []
after_first pattern (c ∷ s) =
    let rest = after_first pattern s in
    elim (strip pattern (c ∷ s)) [ some found ↦ some found | none ↦ rest ]

-- `strcmp(a, b) < 0` and `strcmp(a, b) == 0`.
pub str_ltb : List ℕ → List ℕ → Bool
str_ltb [] [] = false
str_ltb [] (_ ∷ _) = true
str_ltb (_ ∷ _) [] = false
str_ltb (a ∷ s) (b ∷ t) = let rest = str_ltb s t in ltb a b || a == b && rest

pub str_eqb : List ℕ → List ℕ → Bool
str_eqb [] [] = true
str_eqb [] (_ ∷ _) = false
str_eqb (_ ∷ _) [] = false
str_eqb (a ∷ s) (b ∷ t) = let rest = str_eqb s t in a == b && rest

module _ {ℓ} {A : Type ℓ} where
  -- `while (len > 0) { text[len] = 0; if (result = find(text)) return result; len -= 1; }`
  unfoldable pub longest : (find : List ℕ → Option A) (len : ℕ) (text : List ℕ) → Option A
  longest find zero text = none
  longest find (suc len) text =
      let rest = longest find len text in
      elim (find (take (suc len) text)) [ some a ↦ some a | none ↦ rest ]

  -- `equal_range` on a table in the order of `key`, by `strcmp`, and the first entry of the range.
  unfoldable pub first_equal : (key : A → List ℕ) (table : List A) → List ℕ → Option A
  unfolding str_ltb
  first_equal key [] text = none
  first_equal key (a ∷ table) text =
      let rest = first_equal key table text in
      if str_ltb (key a) text then rest else if str_ltb text (key a) then none else some a

  -- `find(long long prefix)` of MobPrefixList.h and of GeoPrefixList.h, whose `_find` is
  -- `first_equal` on a text that is not empty.
  unfoldable pub find_prefix : (key : A → List ℕ) (table : List A) → ℤ → Option A
  unfolding print_ll longest first_equal
  find_prefix key table number =
      let text = print_ll number in longest (first_equal key table) (length text) text
