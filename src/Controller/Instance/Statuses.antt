-- ===== src/Controller/Instance/Statuses.antt =====
-- pkg/controller/vaultunsealconfig_controller.go: the statuses that the work on the instances yields.
use vault_autounseal_operato.Prelude.{
  ℕ, ◌≡◌, refl, sym, ap, ◌∙◌, ◌⊎◌, inl, inr, Bool, true, false, not, ◌&&◌, Option, none, some, List,
  [], ◌∷◌, arith, Bool-cases, Option-cases, some_injective,
}
use vault_autounseal_operato.GoLib.Strings.{Bytes}
use vault_autounseal_operato.GoLib.Outcome.{Outcome, ok, err, panic}
use vault_autounseal_operato.Errors.{Err, nil}
use vault_autounseal_operato.Strategy.World.{World, Ctx, SealStatus}
use vault_autounseal_operato.Strategy.Interface.{VaultClient}
use vault_autounseal_operato.Client.Api.{Api}
use vault_autounseal_operato.Controller.Types.{VaultInstance, VaultInstanceStatus}
use vault_autounseal_operato.Controller.Repository.{ClientFactory, Clients, client_key, get_client}
use vault_autounseal_operato.Controller.Instance.{
  after_unseal, after_is_sealed, work_on, with_client, process_vault_instance,
  process_vault_instances, status_or_failed, get_threshold,
}

-- A status of an instance: unsealed with a time and no error, or sealed without a time.
abbrev pub Describes : VaultInstance → VaultInstanceStatus → Type 0
Describes i st =
    (st.name ≡ i.name)
    × (((st.sealed ≡ false) × (st.error ≡ nil) × ((n : ℕ) × (st.last_unsealed ≡ some n)))
        ⊎ ((st.sealed ≡ true) × (st.last_unsealed ≡ none)))

-- One status for each instance, in their order.
abbrev pub DescribesAll : List VaultInstance → List VaultInstanceStatus → Type 0
DescribesAll [] [] = Unit
DescribesAll [] (st ∷ sts) = ⊥
DescribesAll (i ∷ is) [] = ⊥
DescribesAll (i ∷ is) (st ∷ sts) = Describes i st × DescribesAll is sts

pub none_sealed : List VaultInstanceStatus → Bool
none_sealed [] = true
none_sealed (st ∷ sts) = not st.sealed && none_sealed sts

abbrev DescribesOutcome : VaultInstance → Outcome Err VaultInstanceStatus → Type 0
DescribesOutcome i (ok st) = Describes i st
DescribesOutcome i (err e) = Unit
DescribesOutcome i panic = Unit

module _ {S : Type 0} (ctx : Ctx) where
  unseal-Describes :
      (i : VaultInstance) (r : Outcome Err (Option SealStatus) × World S)
      → DescribesOutcome i (after_unseal ctx i.name r).0
  unseal-Describes i (ok none, w) = tt
  unseal-Describes i (ok (some st), w) = elim (Bool-cases st.sealed) [
    | inl e ↦ simp e (refl, inr (refl, refl))
    | inr e ↦ simp e (refl, inl (refl, refl, (w.now, refl)))
  ]
  unseal-Describes i (err e, w) = tt
  unseal-Describes i (panic, w) = tt

  asked-Describes :
      (client : VaultClient S) (i : VaultInstance) (r : (Bool × Err) × World S)
      → DescribesOutcome i (after_is_sealed ctx client i r).0
  asked-Describes client i ((is_sealed, e), w) =
      ground (arith, unseal-Describes i (client.unseal ctx i.unseal_keys (get_threshold i) w))

  module _ (api : Api S) (factory : ClientFactory S) where
    with_client-Describes :
        (i : VaultInstance) (r : Outcome Err (VaultClient S) × Clients S) (w : World S)
        → DescribesOutcome i (with_client ctx api factory i r w).0
    unfolding work_on
    with_client-Describes i (ok client, cs) w = asked-Describes client i (client.is_sealed ctx w)
    with_client-Describes i (err e, cs) w = tt
    with_client-Describes i (panic, cs) w = tt

    process_vault_instance-Describes :
        (i : VaultInstance) (namespace : Bytes) (cs : Clients S) (w : World S)
        → DescribesOutcome i (process_vault_instance ctx api factory i namespace cs w).0
    unfolding process_vault_instance
    process_vault_instance-Describes i namespace cs w =
        with_client-Describes i (get_client api factory (client_key namespace i.name) i cs) w

failed-Describes :
    (i : VaultInstance) (o : Outcome Err VaultInstanceStatus) (st : VaultInstanceStatus)
    → DescribesOutcome i o
    → status_or_failed i.name o ≡ some st
    → Describes i st
failed-Describes i (ok s) st d h = rw (← some_injective h) d
failed-Describes i (err e) st d h = rw (← some_injective h) (refl, inr (refl, refl))
failed-Describes i panic st d h = ground arith

and_true : (b : Bool) → b ≡ (b && true)
and_true b = ground arith

and_assoc : (a b c : Bool) → ((a && b) && c) ≡ (a && (b && c))
and_assoc a b c = ground arith

module _ {S : Type 0} (ctx : Ctx) (api : Api S) (factory : ClientFactory S)
    (namespace : Bytes) where
  instances-cons :
      (i : VaultInstance) (is : List VaultInstance) (ready : Bool) (cs : Clients S) (w : World S)
      (st : VaultInstanceStatus) (r : List VaultInstanceStatus × Bool)
      → let one = process_vault_instance ctx api factory i namespace cs w in
        status_or_failed i.name one.0 ≡ some st
        → (process_vault_instances ctx api factory is namespace
            (ready && not st.sealed)
            one.1
            one.2).0
          ≡ some r
        → (process_vault_instances ctx api factory (i ∷ is) namespace ready cs w).0
          ≡ some (st ∷ r.0, r.1)
  unfolding process_vault_instances
  instances-cons i is ready cs w st r e f = rw (e, process_vault_instances) (rw f refl)

  -- When the work on the instances of a configuration ends, there is one status for each, in their
  -- order, each with the instance's name, and the configuration is ready exactly when none of them is
  -- sealed, whatever the clients and the servers do.
  pub process_vault_instances-DescribesAll :
      (is : List VaultInstance) (ready : Bool) (cs : Clients S) (w : World S)
      (sts : List VaultInstanceStatus) (all : Bool)
      → (process_vault_instances ctx api factory is namespace ready cs w).0 ≡ some (sts, all)
      → DescribesAll is sts × (all ≡ (ready && none_sealed sts))
  unfolding process_vault_instances none_sealed
  process_vault_instances-DescribesAll [] ready cs w sts all h =
      let e = some_injective h in rw (← ap (λ x. x.0) e, ← ap (λ x. x.1) e) (tt, and_true ready)
  process_vault_instances-DescribesAll (i ∷ is) ready cs w sts all h =
      let one = process_vault_instance ctx api factory i namespace cs w in
      elim (Option-cases (status_or_failed i.name one.0)) [
        | inl e ↦ ground arith
        | inr (st, e) ↦
            let rest =
              process_vault_instances ctx api factory is namespace (ready && not st.sealed) one.1
                one.2 in
            elim (Option-cases rest.0) [
              | inl f ↦ ground arith
              | inr (r, f) ↦
                  let (many, ready') =
                    process_vault_instances-DescribesAll is (ready && not st.sealed) one.1 one.2 r.0
                      r.1 f in
                  let first =
                    failed-Describes i one.0 st
                      (process_vault_instance-Describes ctx api factory i namespace cs w) e in
                  let same = instances-cons i is ready cs w st r e f in
                  let p = some_injective (sym same ∙ h) in
                  rw (← ap (λ x. x.0) p, ← ap (λ x. x.1) p)
                    ((first, many), ready' ∙ and_assoc ready (not st.sealed) (none_sealed r.0))
            ]
      ]
