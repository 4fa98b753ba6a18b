-- ===== src/Client/Submission/Budget.antt =====
-- pkg/vault/client.go with the retrying strategy of pkg/vault/strategy.go: how many keys one Unseal sends.
use vault_autounseal_operato.Prelude.{
  ◌+◌, ◌*◌, ◌≤◌, ◌≡◌, refl, ap, ◌∙◌, Bool, true, false, List, [], ◌∷◌, length, length-take, take, ℤ,
  arith,
}
use vault_autounseal_operato.Prelude.Int.{pos_part}
use vault_autounseal_operato.GoLib.Strings.{Bytes}
use vault_autounseal_operato.Validator.Default.{KeyValidator}
use vault_autounseal_operato.Strategy
use vault_autounseal_operato.Strategy.Retry.Attempts.{retry_unseal_work}
use vault_autounseal_operato.Strategy.Interface.{default_strategy, retry_strategy}
use vault_autounseal_operato.Strategy.Policy.{RetryPolicy}
use vault_autounseal_operato.Strategy.Default.{default_unseal}
use vault_autounseal_operato.Strategy.World.{World, Ctx}
use vault_autounseal_operato.Client.Api.{Api}
use vault_autounseal_operato.Client.Methods
use vault_autounseal_operato.Client.Methods.{Client, view}
use vault_autounseal_operato.Client.Methods.Laws.{unseal-open, unseal-closed}
use vault_autounseal_operato.Client.Submission.{keys_sent, then_sent, default_unseal-FirstKeys}

length-then_sent :
    (ks before : List Bytes) → length (then_sent ks before) ≡ length ks + length before
length-then_sent [] before = omega arith
length-then_sent (k ∷ ks) before = omega (arith, length-then_sent ks (k ∷ before))

-- A client with the retrying strategy over the default one, as the constructor builds it, sends at
-- most MaxAttempts() times the threshold keys in one Unseal (none if the threshold is negative).
pub unseal-length-keys_sent :
    {S : Type 0} (api : Api S) (c : Client S) (ctx : Ctx) (validator : KeyValidator) (m : Bool)
    (policy : RetryPolicy) (keys : List Bytes) (t : ℤ) (w : World S)
    → c.strategy ≡ retry_strategy (default_strategy validator m) policy
    → length (keys_sent (Methods.unseal api c ctx keys t w).1.trace)
      ≤ length (keys_sent w.trace) + pos_part policy.max_attempts * pos_part t
unfolding Strategy.unseal
unseal-length-keys_sent api c ctx validator m policy keys t w built = go c.closed refl
  where
    bounded :
        (v : World _)
        → length (
            keys_sent
              (default_unseal validator m ctx
                (view api c (Methods.no_unseal api))
                keys
                t
                v).1.trace)
          ≤ length (keys_sent v.trace) + pos_part t
    bounded v =
        let (n, le, within, all) =
          default_unseal-FirstKeys api c (Methods.no_unseal api) ctx validator m keys t v in
        omega (
          arith,
          ap length all,
          length-then_sent (take n keys) (keys_sent v.trace),
          length-take n keys,
        )

    go :
        (b : Bool)
        → c.closed ≡ b
        → length (keys_sent (Methods.unseal api c ctx keys t w).1.trace)
          ≤ length (keys_sent w.trace) + pos_part policy.max_attempts * pos_part t
    go true e = rw (unseal-closed api c ctx keys t w e) (omega arith)
    go false e =
        let same =
          unseal-open api c ctx keys t w e
          ∙ ap (λ s. Strategy.unseal s ctx (view api c (Methods.no_unseal api)) keys t w) built in
        rw same (
          retry_unseal_work (default_unseal validator m) policy ctx
            (view api c (Methods.no_unseal api)) keys t (λ s es. length (keys_sent es)) (pos_part t)
            bounded w)

-- Asking whether the server is sealed sends no key.
pub is_sealed-keys_sent :
    {S : Type 0} (api : Api S) (c : Client S) (ctx : Ctx) (w : World S)
    → keys_sent (Methods.is_sealed c api ctx w).1.trace ≡ keys_sent w.trace
unfolding Methods.is_sealed keys_sent
is_sealed-keys_sent api c ctx w = ground arith
