-- ===== src/Container/Partitions.antt =====
-- The counters are split where the legs are split.
use mathlib.Core.Option.{some-injective}
use voipbill.Prelude.{
  ℕ, ◌-◌, ◌≤◌, ◌<◌, ◌≡◌, ◌≢◌, refl, sym, ap, subst, ◌∙◌, Bool, true, false, Option, none, some,
  List, [], ◌∷◌, ◌++◌, length, length-append, leb, ltb, ◌==◌, ◌||◌, ◌&&◌, if◌then◌else◌, arith,
  Bool-cases, inl, inr,
}
use voipbill.Models.Double.{Double}
use voipbill.Models.Call.{Call}
use voipbill.Map.{insert, add}
use voipbill.Stats.Freemin
use voipbill.Stats.Package
use voipbill.Stats.Minute
use voipbill.Stats.TrunkSettings
use voipbill.Stats.Account.{Accounts, StatsAccount}
use voipbill.Stats.Account
use voipbill.Stats.Ledger.{Ledger}
use voipbill.Stats.Ledger
use voipbill.Stats.Ledger.Parts.{charge-parts, write_last-length, drop_first-length}
use voipbill.Calls
use voipbill.Calls.{CallsManager}
use voipbill.Calls.Pending.{nonempty, last-nonempty}
use voipbill.Calls.Queue.{add-AddedTo, add-length}
use voipbill.Models.Tariff.{ServicePackage, StatsFreemin, StatsPackage, StatsNnpPackageMinute}
use voipbill.Models.Trunk.{StatsTrunkSettings}
use voipbill.Billing.Monad.{CallInfo}
use voipbill.Container.{
  Container, create_new_partition, remove_partition_after_save, add_call, begin_save, ◌>>=◌,
}

abbrev Same : {S : Type 0} → Option (Ledger S) → Ledger S → Type 0
Same {S} r l = (l' : Ledger S) × (r ≡ some l') × (length l'.parts ≡ length l.parts)

if_charge-Same :
    {S : Type 0} (skip : Bool) (i : ℕ) (change : S → S) (l : Ledger S)
    → l.parts ≢ []
    → Same (if skip then some l else Ledger.charge i change l) l
if_charge-Same true i change l h = (l, refl, refl)
if_charge-Same false i change l h = charge-parts i change l h

both_more :
    {A B : Type 0} (xs : List (List A)) (ys : List (List B))
    → length xs ≡ length ys
    → length (xs ++ ([] ∷ [])) ≡ length (ys ++ ([] ∷ []))
both_more xs ys e = omega (arith, length-append xs ([] ∷ []), length-append ys ([] ∷ []))

module _ {D : Type 0} ⦃d : Double D⦄ where
  freemin-Same :
      (call : Call D) (l : Ledger (StatsFreemin D)) → l.parts ≢ [] → Same (Freemin.add call l) l
  unfolding Freemin.add
  freemin-Same call l h = if_charge-Same _ _ _ l h

  package-Same :
      (call : Call D) (prepaid : Option ServicePackage) (l : Ledger (StatsPackage D))
      → l.parts ≢ []
      → Same (Package.add call prepaid l) l
  unfolding Package.add
  package-Same call prepaid l h = if_charge-Same _ _ _ l h

  minute-Same :
      (call : Call D) (l : Ledger (StatsNnpPackageMinute D))
      → l.parts ≢ []
      → Same (Minute.add call l) l
  unfolding Minute.add
  minute-Same call l h = if_charge-Same _ _ _ l h

  trunk_settings-Same :
      (call : Call D) (l : Ledger (StatsTrunkSettings D))
      → l.parts ≢ []
      → Same (TrunkSettings.add call l) l
  unfolding TrunkSettings.add
  trunk_settings-Same call l h = if_charge-Same _ _ _ l h

  abbrev AccountSame : Option (Accounts D) → Accounts D → Type 0
  AccountSame r m = (m' : Accounts D) × (r ≡ some m') × (length m'.parts ≡ length m.parts)

  add_stats-Same :
      (i : ℕ) (s : StatsAccount D) (m : Accounts D)
      → m.parts ≢ []
      → AccountSame (Account.add_stats i s m) m
  add_stats-Same i s m h =
      let (ps, e, n) = write_last-length i s m.parts h in
      (
        record m { stats = insert i s m.stats; parts = ps; for_sync = add i m.for_sync },
        rw (e, Account.add_stats) refl,
        n,
      )

  account-Same :
      (call : Call D) (info : CallInfo D) (m : Accounts D)
      → m.parts ≢ []
      → AccountSame (Account.add call info m) m
  unfolding Account.add
  account-Same call info m h =
      elim info.account
        as (λ a.
          AccountSame (elim a [ none ↦ some m | some client ↦ Account.add_for client call info m ])
            m) [
              | none ↦ (m, refl, refl)
              | some client ↦
                  elim (d.lt (d.abs call.cost) d.micro)
                    as (λ b.
                      AccountSame
                        (if b
                          then some m
                          else Account.add_stats call.account_id
                              (Account.charge_account call info client
                                (Account.account_of call.account_id m.stats))
                              m)
                        m) [ true ↦ (m, refl, refl) | false ↦ add_stats-Same _ _ m h ]
            ]

  full-total :
      (m : CallsManager D)
      → m.parts ≢ []
      → (b : Bool) × (Calls.is_need_create_partition_after_add m ≡ some b)
  unfolding Calls.is_need_create_partition_after_add
  full-total m h =
      let (p, e) = last-nonempty m.parts h in
      (leb Calls.partition_size (length p), rw (e, Calls.is_need_create_partition_after_add) refl)

  -- There are as many partitions of every counter as of the legs, and at least one.
  pub record InStep (c : Container D) : Type 0 where
    pub some_part : 0 < length c.calls.parts
    pub account : length c.stats_account.parts ≡ length c.calls.parts
    pub freemin : length c.stats_freemin.parts ≡ length c.calls.parts
    pub packages : length c.stats_package.parts ≡ length c.calls.parts
    pub trunk_settings : length c.stats_trunk_settings.parts ≡ length c.calls.parts
    pub minutes : length c.stats_nnp_package_minute.parts ≡ length c.calls.parts

  create_new_partition-InStep : (c : Container D) → InStep c → InStep (create_new_partition c)
  unfolding create_new_partition Calls.create_new_partition Account.create_new_partition
      Ledger.create_new_partition
  create_new_partition-InStep c v = record {
    some_part = omega (arith, v.some_part, length-append c.calls.parts ([] ∷ []));
    account = both_more c.stats_account.parts c.calls.parts v.account;
    freemin = both_more c.stats_freemin.parts c.calls.parts v.freemin;
    packages = both_more c.stats_package.parts c.calls.parts v.packages;
    trunk_settings = both_more c.stats_trunk_settings.parts c.calls.parts v.trunk_settings;
    minutes = both_more c.stats_nnp_package_minute.parts c.calls.parts v.minutes;
  }

  maybe-InStep :
      (b : Bool) (c : Container D) → InStep c → InStep (if b then create_new_partition c else c)
  maybe-InStep true c v = create_new_partition-InStep c v
  maybe-InStep false c v = v

  maybe-le :
      (b : Bool) (c : Container D) (n : ℕ)
      → n ≤ length c.calls.parts
      → n ≤ length (if b then create_new_partition c else c).calls.parts
  unfolding create_new_partition Calls.create_new_partition
  maybe-le true c n h = omega (arith, length-append c.calls.parts ([] ∷ []))
  maybe-le false c n h = h

  needed-total : (m : CallsManager D) → m.parts ≢ [] → (b : Bool) × (Calls.is_need_save m ≡ some b)
  unfolding Calls.is_need_save
  needed-total m h = needed_of m.parts h
    where
      needed_of :
          (ps : List (List (Call D)))
          → ps ≢ []
          → (b : Bool) × ((elim ps [
            | [] ↦ none
            | p ∷ qs ↦ some (ltb 0 (length p) || ltb 1 (length m.parts))
          ])
              ≡ some b)
      needed_of [] h = absurd (h refl)
      needed_of (p ∷ qs) h = (_, refl)

  pub begin_save-InStep :
      (c : Container D)
      → InStep c
      → (b : Bool) × (c' : Container D) × (begin_save c ≡ some (b, c')) × InStep c'
  unfolding begin_save
  begin_save-InStep c v =
      let (b, e) = needed-total c.calls (nonempty _ v.some_part) in
      (
        b,
        (if b && Calls.is_need_create_partition_before_save c.calls
            then create_new_partition c
            else c),
        rw e refl,
        maybe-InStep _ c v,
      )

  pub add_call-InStep :
      (call : Call D) (info : CallInfo D) (c : Container D)
      → InStep c
      → (c' : Container D) × (add_call call info c ≡ some c')
        × InStep c'
        × (length c.calls.parts ≤ length c'.calls.parts)
  unfolding add_call
  add_call-InStep call info c v =
      let (a, e1, n1) =
        account-Same call info c.stats_account
          (nonempty _ (omega (arith, v.some_part, v.account))) in
      let (f, e2, n2) =
        freemin-Same call c.stats_freemin (nonempty _ (omega (arith, v.some_part, v.freemin))) in
      let (p, e3, n3) =
        package-Same call info.service_package_prepaid c.stats_package
          (nonempty _ (omega (arith, v.some_part, v.packages))) in
      let (t, e4, n4) =
        trunk_settings-Same call c.stats_trunk_settings
          (nonempty _ (omega (arith, v.some_part, v.trunk_settings))) in
      let (m, e5, n5) =
        minute-Same call c.stats_nnp_package_minute
          (nonempty _ (omega (arith, v.some_part, v.minutes))) in
      let (q, e6, n, k) = add-AddedTo call c.calls (nonempty _ v.some_part) in
      let (b, e7) = full-total q n in
      let same = add-length call c.calls q (nonempty _ v.some_part) e6 in
      let c' : Container D = record c {
        calls = q;
        stats_account = a;
        stats_freemin = f;
        stats_package = p;
        stats_trunk_settings = t;
        stats_nnp_package_minute = m;
      } in
      (
        (if b then create_new_partition c' else c'),
        rw (e1, e2, e3, e4, e5, e6, e7) refl,
        maybe-InStep b c' (record {
          some_part = omega (arith, v.some_part, same);
          account = n1 ∙ v.account ∙ sym same;
          freemin = n2 ∙ v.freemin ∙ sym same;
          packages = n3 ∙ v.packages ∙ sym same;
          trunk_settings = n4 ∙ v.trunk_settings ∙ sym same;
          minutes = n5 ∙ v.minutes ∙ sym same;
        }),
        maybe-le b c' _ (omega (arith, same)),
      )

  remove_first-length :
      (m : CallsManager D) (ps : List (List (Call D)))
      → 0 < length ps
      → (m' : CallsManager D) × (Calls.remove_first m ps ≡ some m')
        × (length m'.parts ≡ length ps - 1)
  unfolding Calls.remove_first
  remove_first-length m [] h = absurd (omega arith)
  remove_first-length m (p ∷ ps) h = (_, refl, omega arith)

  remove_partition_after_save-InStep :
      (c : Container D)
      → InStep c
      → 1 < length c.calls.parts
      → (c' : Container D) × (remove_partition_after_save c ≡ some c') × InStep c'
  unfolding remove_partition_after_save Calls.remove_partition_after_save
      Account.remove_partition_after_save Ledger.remove_partition_after_save
  remove_partition_after_save-InStep c v h =
      let (m, e, n) = remove_first-length c.calls c.calls.parts v.some_part in
      (
        record c {
          calls = m;
          stats_account = Account.remove_partition_after_save c.stats_account;
          stats_freemin = Ledger.remove_partition_after_save c.stats_freemin;
          stats_package = Ledger.remove_partition_after_save c.stats_package;
          stats_trunk_settings = Ledger.remove_partition_after_save c.stats_trunk_settings;
          stats_nnp_package_minute = Ledger.remove_partition_after_save c.stats_nnp_package_minute;
        },
        rw e refl,
        record {
          some_part = omega (arith, n);
          account = omega (arith, n, v.account, drop_first-length c.stats_account.parts);
          freemin = omega (arith, n, v.freemin, drop_first-length c.stats_freemin.parts);
          packages = omega (arith, n, v.packages, drop_first-length c.stats_package.parts);
          trunk_settings =
              omega (arith, n, v.trunk_settings, drop_first-length c.stats_trunk_settings.parts);
          minutes = omega (arith, n, v.minutes, drop_first-length c.stats_nnp_package_minute.parts);
        },
      )

  -- `addCall` of one leg after the other.
  pub add_calls : List (Call D × CallInfo D) → Container D → Option (Container D)
  add_calls [] c = some c
  add_calls ((call, info) ∷ legs) c = add_call call info c >>= add_calls legs

  add_calls-InStep :
      (legs : List (Call D × CallInfo D)) (c : Container D)
      → InStep c
      → (c' : Container D) × (add_calls legs c ≡ some c')
        × InStep c'
        × (length c.calls.parts ≤ length c'.calls.parts)
  unfolding add_calls
  add_calls-InStep [] c v = (c, refl, v, omega arith)
  add_calls-InStep ((call, info) ∷ legs) c v =
      let (c1, e, v1, n1) = add_call-InStep call info c v in
      let (c2, g, v2, n2) = add_calls-InStep legs c1 v1 in (c2, rw e g, v2, omega arith)

  two_parts :
      (b : Bool) (c : Container D)
      → InStep c
      → b ≡ true
      → 1
        < length
            (if b && Calls.is_need_create_partition_before_save c.calls
              then create_new_partition c
              else c).calls.parts
  unfolding Calls.is_need_create_partition_before_save create_new_partition
      Calls.create_new_partition
  two_parts false c v e = cc
  two_parts true c v e = elim (Bool-cases (length c.calls.parts == 1)) [
    | inl one ↦ rw one (omega (arith, v.some_part, length-append c.calls.parts ([] ∷ [])))
    | inr more ↦ rw more (ground (arith, v.some_part))
  ]

  begun :
      (c c' : Container D) → InStep c → begin_save c ≡ some (true, c') → 1 < length c'.calls.parts
  unfolding begin_save
  begun c c' v e =
      let (b, n) = needed-total c.calls (nonempty _ v.some_part) in
      let same = some-injective _ _ (rw n at e) in
      let yes_needed = ap (λ (x : Bool × Container D). x.0) same in
      subst (λ (x : Container D). 1 < length x.calls.parts)
        (ap (λ (x : Bool × Container D). x.1) same) (two_parts b c v yes_needed)

  -- Where the counters have as many partitions as the legs, a save that begins can be ended: legs
  -- may be added meanwhile, all operations return, and there are as many partitions again.
  pub save-InStep :
      (legs : List (Call D × CallInfo D)) (c c1 : Container D)
      → InStep c
      → begin_save c ≡ some (true, c1)
      → (c2 : Container D) × (c3 : Container D) × (add_calls legs c1 ≡ some c2)
        × (remove_partition_after_save c2 ≡ some c3)
        × InStep c3
  save-InStep legs c c1 v e =
      let (b, c', g, v') = begin_save-InStep c v in
      let same : some (b, c') ≡ some (true, c1) = sym g ∙ e in
      let (c2, h, v2, n) =
        add_calls-InStep legs c1
          (subst InStep (ap (λ (x : Bool × Container D). x.1) (some-injective _ _ same)) v') in
      let (c3, r, v3) = remove_partition_after_save-InStep c2 v2 (omega (arith, begun c c1 v e)) in
      (c2, c3, h, r, v3)
