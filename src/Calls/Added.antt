-- ===== src/Calls/Added.antt =====
-- A leg that `add` of src-bill/classes/CallsManager.cpp adds is behind all the others.
use mathlib.Core.Option.{some-injective}
use voipbill.Prelude.{◌≡◌, ◌≢◌, sym, ap, ◌∙◌, arith, some, [], ◌∷◌, ◌++◌}
use voipbill.Models.Call.{Call}
use voipbill.Calls.{CallsManager, add, push_last}
use voipbill.Calls.Pending.{pending}
use voipbill.Calls.Queue.{add-AddedTo}

module _ {D : Type 0} where
  -- Without a partition it fails.
  add-parted : (call : Call D) (m m' : CallsManager D) → add call m ≡ some m' → m.parts ≢ []
  unfolding add push_last
  add-parted call m m' e = λ z. ground (arith, e, z)

  pub add-pending :
      (call : Call D) (m m' : CallsManager D)
      → add call m ≡ some m'
      → pending m'.parts ≡ pending m.parts ++ (call ∷ [])
  add-pending call m m' e =
      let (m1, g, n, k) = add-AddedTo call m (add-parted call m m' e) in
      ap (λ (x : CallsManager D). pending x.parts) (some-injective _ _ (sym e ∙ g)) ∙ k.behind
