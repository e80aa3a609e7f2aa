-- ===== src/Calls/Pending.antt =====
-- The legs of the partitions as one sequence.
use mathlib.Core.Option.{some-injective}
use mathlib.Core.List.{append_assoc, append-nil}
use voipbill.Prelude.{
  ◌+◌, ◌<◌, ◌≡◌, ◌≢◌, refl, sym, ap, some, List, [], ◌∷◌, ◌++◌, length, length-append, arith,
}
use voipbill.Calls.{push_last, last, total_size}

-- The legs of all partitions in their order.
unfoldable pub pending {ℓ} : {A : Type ℓ} → List (List A) → List A
pending [] = []
pending (p ∷ ps) = p ++ pending ps

-- A leg goes behind all the others, into the newest partition.
pub record Pushed {ℓ} {A : Type ℓ} (a : A) (ps qs : List (List A)) : Type ℓ where
  pub behind : pending qs ≡ pending ps ++ (a ∷ [])
  pub as_many : length qs ≡ length ps
  pub one_more : total_size qs ≡ total_size ps + 1

pub push_last-Pushed {ℓ} :
    {A : Type ℓ} (a : A) (p : List A) (ps : List (List A))
    → (qs : List (List A)) × (push_last a (p ∷ ps) ≡ some qs) × Pushed a (p ∷ ps) qs
unfolding push_last pending total_size
push_last-Pushed a p [] = (
  (p ++ (a ∷ [])) ∷ [],
  refl,
  record {
    behind = simp (append_assoc, append-nil);
    as_many = refl;
    one_more = omega (arith, length-append p (a ∷ []));
  },
)
push_last-Pushed a p (q ∷ ps) =
    let (qs, e, k) = push_last-Pushed a q ps in
    (
      p ∷ qs,
      rw e,
      record {
        behind = simp (k.behind, append_assoc);
        as_many = omega (arith, k.as_many);
        one_more = omega (arith, k.one_more);
      },
    )

unfoldable pub front {ℓ} : {A : Type ℓ} → List (List A) → List A
front [] = []
front (p ∷ ps) = p

pub push_last-front {ℓ} :
    {A : Type ℓ} (a : A) (ps qs : List (List A))
    → 1 < length ps
    → push_last a ps ≡ some qs
    → front qs ≡ front ps
unfolding push_last front
push_last-front a [] qs h e = absurd (omega arith)
push_last-front a (p ∷ []) qs h e = absurd (omega arith)
push_last-front a (p ∷ q ∷ ps) qs h e =
    let (rs, g, k) = push_last-Pushed a q ps in
    let same : some (p ∷ rs) ≡ some qs = rw g at e in sym (ap front (some-injective _ _ same))

pub pending-partition {ℓ} :
    {A : Type ℓ} (ps : List (List A)) → pending (ps ++ ([] ∷ [])) ≡ pending ps
unfolding pending
pending-partition [] = refl
pending-partition (p ∷ ps) = ap (λ l. p ++ l) (pending-partition ps)

pub front-partition {ℓ} :
    {A : Type ℓ} (ps : List (List A)) → ps ≢ [] → front (ps ++ ([] ∷ [])) ≡ front ps
unfolding front
front-partition [] h = absurd (h refl)
front-partition (p ∷ ps) h = refl

pub last-total {ℓ} : {A : Type ℓ} (a : A) (l : List A) → (b : A) × (last (a ∷ l) ≡ some b)
unfolding last
last-total a [] = (a, refl)
last-total a (b ∷ l) = last-total b l

pub nonempty {ℓ} : {A : Type ℓ} (l : List A) → 0 < length l → l ≢ []
nonempty [] h = absurd (omega arith)
nonempty (a ∷ l) h = λ e. cc

pub length-nonempty {ℓ} : {A : Type ℓ} (l : List A) → l ≢ [] → 0 < length l
length-nonempty [] h = absurd (h refl)
length-nonempty (a ∷ l) h = omega arith

pub push_last-total {ℓ} :
    {A : Type ℓ} (a : A) (ps : List (List A))
    → ps ≢ []
    → (qs : List (List A)) × (push_last a ps ≡ some qs) × Pushed a ps qs
push_last-total a [] h = absurd (h refl)
push_last-total a (p ∷ ps) h = push_last-Pushed a p ps

pub last-nonempty {ℓ} : {A : Type ℓ} (l : List A) → l ≢ [] → (b : A) × (last l ≡ some b)
last-nonempty [] h = absurd (h refl)
last-nonempty (a ∷ l) h = last-total a l
