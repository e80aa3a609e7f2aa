-- ===== src/Models/Double.antt =====
-- What the billing does with a `double`: an argument of the model, with no law.
use voipbill.Prelude.{Bool, ℤ, pos}

pub record Double (D : Type 0) : Type 0 where
  pub of_int : ℤ → D
  pub add : D → D → D
  pub mul : D → D → D
  pub div : D → D → D
  pub neg : D → D
  pub abs : D → D
  pub lt : D → D → Bool
  pub le : D → D → Bool
  -- The constant 0.00001.
  pub tiny : D
  -- The constant 0.000001.
  pub micro : D
  -- The constant 0.00000001.
  pub hundred_millionth : D

module _ {D : Type 0} ⦃d : Double D⦄ where
  abbrev pub nought : D
  nought = d.of_int (pos 0)

  abbrev pub gt : D → D → Bool
  gt a b = d.lt b a
