-- ===== src/Text/Prefix.antt =====
-- `find_prefix` returns the entry with the longest prefix.
use voipbill.Prelude.{
  ℕ, zero, suc, ◌≤◌, ◌<◌, ◌≡◌, refl, ap, ◌∙◌, sym, subst, ◌≢◌, ◌⊎◌, inl, inr, true, false, Option,
  none, List, [], ◌∷◌, take, length, All, arith, ℤ, Option-cases,
}
use voipbill.Text.{str_ltb, longest, first_equal, find_prefix, print_ll}

str_ltb_irrefl : (s : List ℕ) → str_ltb s s ≡ false
unfolding str_ltb
str_ltb_irrefl [] = refl
str_ltb_irrefl (c ∷ s) = ground (arith, str_ltb_irrefl s)

str_ltb_trans : (s t u : List ℕ) → str_ltb s t ≡ true → str_ltb t u ≡ true → str_ltb s u ≡ true
unfolding str_ltb
str_ltb_trans [] [] u h k = cc
str_ltb_trans [] (b ∷ t) [] h k = cc
str_ltb_trans [] (b ∷ t) (c ∷ u) h k = refl
str_ltb_trans (a ∷ s) [] u h k = cc
str_ltb_trans (a ∷ s) (b ∷ t) [] h k = cc
str_ltb_trans (a ∷ s) (b ∷ t) (c ∷ u) h k = ground (arith, str_ltb_trans s t u)

le_suc_cases : (j n : ℕ) → j ≤ suc n → (j ≤ n) ⊎ (j ≡ suc n)
le_suc_cases j n h = omega arith

module _ {A : Type 0} where
  -- `a` is an entry of the table.
  abbrev pub In : A → List A → Type 0
  In a [] = ⊥
  In a (b ∷ bs) = (a ≡ b) ⊎ In a bs

  -- The order of the query that fills the table, `order by prefix asc`.
  abbrev pub IsAscending : (key : A → List ℕ) → List A → Type 0
  IsAscending key [] = Unit
  IsAscending key (a ∷ rest) =
      All (λ b. str_ltb (key b) (key a) ≡ false) rest × IsAscending key rest

  All-In : (P : A → Type 0) {b : A} (table : List A) → All P table → In b table → P b
  All-In P [] h m = elim m [ ]
  All-In P (a ∷ rest) (h, hs) (inl e) = subst P (sym e) h
  All-In P (a ∷ rest) (h, hs) (inr m) = All-In P rest hs m

  module _ (key : A → List ℕ) where
    In-first_equal :
        (table : List A) (t : List ℕ) {b : A}
        → IsAscending key table
        → In b table
        → key b ≡ t
        → first_equal key table t ≢ none
    unfolding first_equal
    In-first_equal [] t h m e = elim m [ ]
    In-first_equal (a ∷ rest) t (h, hs) (inl m) e =
        let same : t ≡ key a = sym e ∙ ap key m in rw (same, str_ltb_irrefl (key a)) λ q. cc
    In-first_equal (a ∷ rest) t (h, hs) (inr m) e =
        let past = All-In _ rest h m in ground (arith, In-first_equal rest t hs m e)

  longest-none :
      (find : List ℕ → Option A) (len : ℕ) (text : List ℕ)
      → longest find len text ≡ none
      → (j : ℕ) → 0 < j
      → j ≤ len
      → find (take j text) ≡ none
  unfolding longest
  longest-none find zero text h j p q = absurd (omega arith)
  longest-none find (suc len) text h j p q = elim (Option-cases (find (take (suc len) text))) [
    | inl e ↦ elim (le_suc_cases j len q) [
      | inl y ↦ longest-none find len text (rw (e, longest) at h) j p y
      | inr y ↦ rw y e
    ]
    | inr (b, e) ↦ absurd (ground arith)
  ]

  -- If none is found, no entry of the table has a prefix that is one of the number's.
  pub find_prefix-none :
      (key : A → List ℕ) (table : List A) (number : ℤ) (b : A) (j : ℕ)
      → IsAscending key table
      → find_prefix key table number ≡ none
      → In b table
      → 0 < j
      → j ≤ length (print_ll number)
      → key b ≢ take j (print_ll number)
  unfolding find_prefix
  find_prefix-none key table number b j sorted h m p q g =
      let text = print_ll number in
      In-first_equal key table (take j text) sorted m g
        (longest-none (first_equal key table) (length text) text h j p q)
