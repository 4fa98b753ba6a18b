-- ===== src/Controller/Instance/Budget.antt =====
-- pkg/controller/vaultunsealconfig_controller.go: how many keys a pass over the instances sends.
use vault_autounseal_operato.Prelude.{
  inl, inr, ℕ, ◌+◌, ◌*◌, ◌≤◌, ◌≡◌, refl, ap, Bool, not, ◌&&◌, Option, none, some, List, [], ◌∷◌,
  length, ℤ, pos, arith, Option-cases,
}
use vault_autounseal_operato.Prelude.Int.{pos_part}
use vault_autounseal_operato.GoLib.Strings.{Bytes}
use vault_autounseal_operato.GoLib.Outcome.{Outcome, ok, err, panic}
use vault_autounseal_operato.Errors.{Err}
use vault_autounseal_operato.Strategy.World.{World, Ctx, SealStatus}
use vault_autounseal_operato.Strategy.Interface.{VaultClient, default_strategy, retry_strategy}
use vault_autounseal_operato.Client.Api.{Api}
use vault_autounseal_operato.Client.Methods.{Client, as_vault_client}
use vault_autounseal_operato.Client.Submission.{keys_sent}
use vault_autounseal_operato.Client.Submission.Budget.{is_sealed-keys_sent, unseal-length-keys_sent}
use vault_autounseal_operato.Controller.Types.{VaultInstance}
use vault_autounseal_operato.Validator.Default.{KeyValidator}
use vault_autounseal_operato.Strategy.Policy.{RetryPolicy}
use vault_autounseal_operato.Controller.Repository.{ClientFactory, Clients, client_key, get_client}
use vault_autounseal_operato.Controller.Repository.Invariant.{
  Cached, FineAnswer, GoodFactory, get_client-Cached,
}
use vault_autounseal_operato.Controller.Instance.{
  after_unseal, after_is_sealed, work_on, with_client, process_vault_instance,
  process_vault_instances, status_or_failed, get_threshold,
}

-- What the instances may cost.
abbrev pub budget : ℕ → List VaultInstance → ℕ
budget n [] = 0
budget n (i ∷ is) = n * pos_part (get_threshold i) + budget n is

module _ {S : Type 0} where
  abbrev pub sent : World S → ℕ
  sent w = length (keys_sent w.trace)

  -- A client whose question for the seal status sends no key, and whose Unseal sends at most `n` times
  -- the threshold keys.
  pub record Frugal (n : ℕ) (client : VaultClient S) : Type 0 where
    pub asks : (ctx : Ctx) (w : World S) → sent (client.is_sealed ctx w).1 ≡ sent w
    pub unseals :
        (ctx : Ctx) (keys : List Bytes) (t : ℤ) (w : World S)
        → sent (client.unseal ctx keys t w).1 ≤ sent w + n * pos_part t

  -- A client with the retrying strategy over the default one, and `n` attempts.
  abbrev pub Built : ℕ → Client S → Type 0
  Built n c =
      (v : KeyValidator) × (m : Bool) × (policy : RetryPolicy) × (c.strategy
        ≡ retry_strategy (default_strategy v m) policy)
      × (policy.max_attempts ≡ pos n)

  client-Frugal :
      (api : Api S) (n : ℕ) (c : Client S) → Built n c → Frugal n (as_vault_client api c)
  client-Frugal api n c (v, m, policy, built, limit) = record {
    asks = λ ctx w. ap length (is_sealed-keys_sent api c ctx w);
    unseals = λ ctx keys t w.
        rw (ap pos_part limit) at (unseal-length-keys_sent api c ctx v m policy keys t w built);
  }

module _ {S : Type 0} (ctx : Ctx) where
  after_unseal-sent :
      (name : Bytes) (r : Outcome Err (Option SealStatus) × World S)
      → sent (after_unseal ctx name r).1 ≡ sent r.1
  after_unseal-sent name (ok none, w) = refl
  after_unseal-sent name (ok (some st), w) = refl
  after_unseal-sent name (err e, w) = refl
  after_unseal-sent name (panic, w) = refl

  work_on-sent :
      (n : ℕ) (client : VaultClient S) (i : VaultInstance) (w : World S)
      → Frugal n client
      → sent (work_on ctx client i w).1 ≤ sent w + n * pos_part (get_threshold i)
  unfolding work_on
  work_on-sent n client i w frugal = asked (client.is_sealed ctx w) (frugal.asks ctx w)
    where
      asked :
          (r : (Bool × Err) × World S)
          → sent r.1 ≡ sent w
          → sent (after_is_sealed ctx client i r).1 ≤ sent w + n * pos_part (get_threshold i)
      asked ((b, e), v) same =
          let unsealing = client.unseal ctx i.unseal_keys (get_threshold i) v in
          ground (
            arith,
            same,
            after_unseal-sent i.name unsealing,
            frugal.unseals ctx i.unseal_keys (get_threshold i) v,
          )

  module _ (api : Api S) (factory : ClientFactory S) (n : ℕ)
      (makes : GoodFactory (Built n) (Frugal n) factory) (namespace : Bytes) where
    with_client-sent :
        (i : VaultInstance) (r : Outcome Err (VaultClient S) × Clients S) (w : World S)
        → FineAnswer (Frugal n) r.0
        → let r' = with_client ctx api factory i r w in
          (sent r'.2 ≤ sent w + n * pos_part (get_threshold i)) × (r'.1 ≡ r.1)
    with_client-sent i (ok client, cs) w fine = (work_on-sent n client i w fine, refl)
    with_client-sent i (err e, cs) w fine = (omega arith, refl)
    with_client-sent i (panic, cs) w fine = (omega arith, refl)

    process_vault_instance-sent :
        (i : VaultInstance) (cs : Clients S) (w : World S)
        → Cached (Built n) cs
        → let r = process_vault_instance ctx api factory i namespace cs w in
          (sent r.2 ≤ sent w + n * pos_part (get_threshold i)) × Cached (Built n) r.1
    unfolding process_vault_instance
    process_vault_instance-sent i cs w all =
        let got = get_client api factory (client_key namespace i.name) i cs in
        let (fine, kept) =
          get_client-Cached api factory (Built n) (Frugal n) (client-Frugal api n) makes
            (client_key namespace i.name) i cs all in
        let (few, same) = with_client-sent i got w fine in (few, rw same kept)

    -- A pass over the instances sends at most `n` times the threshold keys for each of them, if each
    -- client makes at most `n` attempts; and all clients in the cache are again such clients.
    pub process_vault_instances-sent :
        (is : List VaultInstance) (ready : Bool) (cs : Clients S) (w : World S)
        → Cached (Built n) cs
        → let r = process_vault_instances ctx api factory is namespace ready cs w in
          (sent r.2 ≤ sent w + budget n is) × Cached (Built n) r.1
    unfolding process_vault_instances
    process_vault_instances-sent [] ready cs w all = (omega arith, all)
    process_vault_instances-sent (i ∷ is) ready cs w all =
        let one = process_vault_instance ctx api factory i namespace cs w in
        let (few, kept) = process_vault_instance-sent i cs w all in
        elim (Option-cases (status_or_failed i.name one.0)) [
          | inl e ↦ rw (e, process_vault_instances) (omega arith, kept)
          | inr (st, e) ↦
              let (more, left) =
                process_vault_instances-sent is (ready && not st.sealed) one.1 one.2 kept in
              rw (e, process_vault_instances) (omega arith, left)
        ]
