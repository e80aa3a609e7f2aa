-- ===== src/Auth.antt =====
-- src-bill/classes/RadiusAuthProcessor.cpp and RadiusAuthProcessor.h: what the RADIUS server
-- answers to a call that wants to begin. Here: what its steps share.
pub mod Filters
pub mod RouteTable
pub mod Limits
pub mod Orders
pub mod Settings
pub mod Terms
pub mod Answer
pub mod Process
mod Samples
mod Examples
use voipbill.Prelude.{
  ℕ, Bool, true, false, Option, none, some, List, [], ◌∷◌, if◌then◌else◌, ◌≡◌, refl, subst,
}
use voipbill.Models.Trunk.{Trunk, Client}
use voipbill.Models.Routing.{RadiusAuthRequest}

abbrev pub is_there {ℓ} : {A : Type ℓ} → Option A → Bool
is_there none = false
is_there (some a) = true

abbrev pub is_empty : List ℕ → Bool
is_empty [] = true
is_empty (c ∷ s) = false

-- The messages of `Exception`, and `std_error` for an exception of the standard library.
pub data AuthError : Type 0 where
  billing_not_ready trunk_not_found server_not_found route_table_not_found : AuthError
  outcome_not_found unexpected_outcome number_not_found prefixlist_not_found : AuthError
  trunk_group_not_found route_case_not_found release_reason_not_found airp_not_found : AuthError
  no_road_to_region mega_trunk_not_found invalid_arguments std_error : AuthError

-- A fault is a null pointer that is followed. `out_of_fuel` is no answer of the code: it stands for
-- a recursion that goes on.
pub data Result {ℓ} (A : Type ℓ) : Type ℓ where
  ok : A → Result A
  thrown : AuthError → Result A
  fault : Result A
  out_of_fuel : Result A

module _ {ℓ κ} {A : Type ℓ} {B : Type κ} where
  infixl 5 ◌>>=◌
  abbrev pub ◌>>=◌ : Result A → (A → Result B) → Result B
  ok a >>= f = f a
  thrown e >>= f = thrown e
  fault >>= f = fault
  out_of_fuel >>= f = out_of_fuel

-- `if (p == nullptr) throw …;`
abbrev pub required {ℓ} : {A : Type ℓ} → AuthError → Option A → Result A
required e none = thrown e
required e (some a) = ok a

-- A pointer that is followed.
abbrev pub deref {ℓ} : {A : Type ℓ} → Option A → Result A
deref none = fault
deref (some a) = ok a

-- `if (!a) continue; if (!b) continue;`
abbrev pub and_also : Result Bool → Result Bool → Result Bool
and_also a b = a >>= λ passed. if passed then b else ok false

-- `for (a : as) if (f(a)) return true; return false;`
unfoldable pub any_of {ℓ} : {A : Type ℓ} → (A → Result Bool) → List A → Result Bool
any_of f [] = ok false
any_of f (a ∷ items) = let rest = any_of f items in do found ← f a; if found then ok true else rest

-- What `init`, `processRedirectNumber` and the billing of the call have found of it. The trunk is
-- not null once `init` has returned.
pub record Caller (D : Type 0) : Type 0 where
  pub request : RadiusAuthRequest
  pub orig_trunk : Trunk
  pub a_number : List ℕ
  pub b_number : List ℕ
  pub account : Option (Client D)

-- A condition on what comes back, where something does.
abbrev pub Post {ℓ κ} : {A : Type ℓ} → (A → Type κ) → Result A → Type κ
Post P (ok a) = P a
Post P (thrown e) = Unit
Post P fault = Unit
Post P out_of_fuel = Unit

module _ {ℓ κ μ} {A : Type ℓ} {B : Type κ} where
  pub bind-Post :
      (Q : B → Type μ) (m : Result A) (f : A → Result B)
      → ((a : A) → m ≡ ok a → Post Q (f a))
      → Post Q (m >>= f)
  bind-Post Q (ok a) f h = h a refl
  bind-Post Q (thrown e) f h = tt
  bind-Post Q fault f h = tt
  bind-Post Q out_of_fuel f h = tt

pub Post-ok {ℓ κ} : {A : Type ℓ} (P : A → Type κ) (m : Result A) (a : A) → Post P m → m ≡ ok a → P a
Post-ok P m a h e = subst (Post P) e h
