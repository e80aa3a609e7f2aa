-- ===== src/Text/Examples.antt =====
-- The search at a concrete table of three prefixes: 7, 74 and 749.
use voipbill.Prelude.{ℕ, ◌≤◌, ◌≡◌, ◌≢◌, refl, List, [], ◌∷◌, take, length, none, pos, arith, inl}
use voipbill.Text.{find_prefix, print_ll, str_ltb}
use voipbill.Text.Prefix.{IsAscending, find_prefix-none}

abbrev key : List ℕ → List ℕ
key a = a

abbrev prefixes : List (List ℕ)
prefixes = (55 ∷ []) ∷ (55 ∷ 52 ∷ []) ∷ (55 ∷ 52 ∷ 57 ∷ []) ∷ []

not_found : find_prefix key prefixes (pos 8495) ≡ none
unfolding find_prefix
not_found = refl

ascending : IsAscending key prefixes
unfolding str_ltb
ascending = ((refl, (refl, tt)), ((refl, tt), (tt, tt)))

one_digit : 1 ≤ length (print_ll (pos 8495))
unfolding print_ll
one_digit = omega arith

find_prefix-none_example : key (55 ∷ []) ≢ take 1 (print_ll (pos 8495))
find_prefix-none_example =
    find_prefix-none key prefixes (pos 8495) (55 ∷ []) 1 ascending not_found (inl refl)
      (omega arith) one_digit
