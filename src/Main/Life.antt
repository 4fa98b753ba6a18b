-- ===== src/Main/Life.antt =====
-- The life of the operator that main.go sets up: the controller runtime calls Reconcile of its reconciler
-- time and again, one call after the other.
use vault_autounseal_operato.Prelude.{
  ℕ, ◌+◌, ◌≤◌, ◌≡◌, ◌≢◌, refl, List, [], ◌∷◌, All, length, arith,
}
use vault_autounseal_operato.GoLib.Strings.{Bytes}
use vault_autounseal_operato.GoLib.Outcome.{Outcome, ok, err, panic}
use vault_autounseal_operato.Errors.{Err}
use vault_autounseal_operato.Strategy.World.{World, Ctx, sleep}
use vault_autounseal_operato.Client.Api.{Api}
use vault_autounseal_operato.Client.Config.{ApiPackage}
use vault_autounseal_operato.Client.Config.Built.{Returns}
use vault_autounseal_operato.Client.Submission.{keys_sent}
use vault_autounseal_operato.Controller.Types.{VaultUnsealConfig}
use vault_autounseal_operato.Controller.Repository.{Clients, default_client_factory}
use vault_autounseal_operato.Controller.Repository.Invariant.{Cached}
use vault_autounseal_operato.Controller.Repository.Sane.{
  SaneClients, default_client_factory-IsSaneFactory,
}
use vault_autounseal_operato.Controller.Instance.Budget.{Built, budget}
use vault_autounseal_operato.Controller.Reconcile.{
  NamespacedName, Kube, Run, Result, ReconcilerOptions, reconcile,
}
use vault_autounseal_operato.Controller.Reconcile.Frugal.{
  reconcile-length-keys_sent, reconcile-unread,
}
use vault_autounseal_operato.Controller.Reconcile.Total.{KubeReturns, reconcile-Finished}
use vault_autounseal_operato.Main.{
  Reconciler, operator_reconciler, new_default_vault_client_repository,
  new_vault_unseal_config_reconciler,
}

-- A call of Reconcile: how long before it nothing happens, its arguments, and what the API server
-- answers to it.
pub record Turn : Type 0 where
  pub pause : ℕ
  pub ctx : Ctx
  pub request : NamespacedName
  pub kube : Kube

-- The keys that a turn may send: three times the threshold for each instance of the configuration
-- that it finds.
abbrev pub allowance : Turn → ℕ
allowance t = elim (t.kube.get t.request) [
  | ok config ↦ budget 3 config.vault_instances
  | err e ↦ 0
  | panic ↦ 0
]

allowance_found :
    (t : Turn) (config : VaultUnsealConfig)
    → t.kube.get t.request ≡ ok config
    → allowance t ≡ budget 3 config.vault_instances
allowance_found t config e = rw (e, allowance) refl

abbrev pub allowances : List Turn → ℕ
allowances [] = 0
allowances (t ∷ ts) = allowance t + allowances ts

module _ {S : Type 0} (api : Api S) where
  abbrev turn : Reconciler S → Turn → World S → Run S
  turn r t w = reconcile api r.factory t.kube r.options t.ctx t.request r.clients (sleep t.pause w)

  -- The results of the calls, the first call first, and the world after them. The reconciler keeps its
  -- factory and its options, and its repository the clients.
  unfoldable pub serve : Reconciler S → List Turn → World S → List (Outcome Err Result) × World S
  serve r [] w = ([], w)
  serve r (t ∷ ts) w =
      let run = turn r t w in
      let (results, w') = serve (record r { clients = run.clients }) ts run.world in
      (run.result ∷ results, w')

  module _ (unicode_lower : Bytes → Bytes) (p : ApiPackage) (safe : Returns p) where
    abbrev own : Clients S → ReconcilerOptions → Reconciler S
    own cs options = record {
      factory = default_client_factory unicode_lower p;
      clients = cs;
      options = options;
    }

    abbrev Sent : Clients S → ReconcilerOptions → Turn → World S → Type 0
    Sent cs options t w =
        (length (keys_sent (turn (own cs options) t w).world.trace)
          ≤ length (keys_sent w.trace) + allowance t)
        × Cached (Built 3) (turn (own cs options) t w).clients

    unread-Sent :
        (cs : Clients S) (options : ReconcilerOptions) (t : Turn) (w : World S)
        (found : Outcome Err VaultUnsealConfig)
        → Cached (Built 3) cs
        → t.kube.get t.request ≡ found
        → ((config : VaultUnsealConfig) → found ≢ ok config)
        → Sent cs options t w
    unread-Sent cs options t w found all e unread =
        let (same, kept) =
          reconcile-unread api (default_client_factory unicode_lower p) t.kube options t.ctx
            t.request cs (sleep t.pause w) found e unread in
        rw (same, kept) (omega arith, all)

    turn-Sent :
        (cs : Clients S) (options : ReconcilerOptions) (t : Turn) (w : World S)
        → Cached (Built 3) cs
        → Sent cs options t w
    turn-Sent cs options t w all = go (t.kube.get t.request) refl
      where
        go :
            (found : Outcome Err VaultUnsealConfig)
            → t.kube.get t.request ≡ found
            → Sent cs options t w
        go (ok config) e =
            let (few, kept) =
              reconcile-length-keys_sent api unicode_lower p safe t.kube options t.ctx t.request
                config cs (sleep t.pause w) e all in
            (omega (arith, few, allowance_found t config e), kept)
        go (err x) e = unread-Sent cs options t w (err x) all e (λ config h. ground (arith, h))
        go panic e = unread-Sent cs options t w panic all e (λ config h. ground (arith, h))

    serve-sent :
        (cs : Clients S) (options : ReconcilerOptions) (ts : List Turn) (w : World S)
        → Cached (Built 3) cs
        → length (keys_sent (serve (own cs options) ts w).1.trace)
          ≤ length (keys_sent w.trace) + allowances ts
    unfolding serve
    serve-sent cs options [] w all = omega arith
    serve-sent cs options (t ∷ ts) w all =
        let run = turn (own cs options) t w in
        let (few, kept) = turn-Sent cs options t w all in
        omega (arith, few, serve-sent run.clients options ts run.world kept)

    -- Each turn's API server returns.
    abbrev pub Answering : Turn → Type 0
    Answering t = KubeReturns t.kube

    serve-returns :
        (cs : Clients S) (options : ReconcilerOptions) (ts : List Turn) (w : World S)
        → SaneClients cs
        → All Answering ts
        → All (λ result. result ≢ panic) (serve (own cs options) ts w).0
    unfolding serve
    serve-returns cs options [] w sane answers = tt
    serve-returns cs options (t ∷ ts) w sane answers =
        let run = turn (own cs options) t w in
        let (fine, kept) =
          reconcile-Finished api (default_client_factory unicode_lower p)
            (default_client_factory-IsSaneFactory S unicode_lower p safe) t.kube answers.0 options
            t.ctx t.request cs (sleep t.pause w) sane in
        (fine, serve-returns run.clients options ts run.world kept answers.1)

    -- The operator that main.go sets up never panics in Reconcile, and sends at most three times the
    -- threshold keys for each instance of each configuration that a call finds: however often, for
    -- which objects and at what times Reconcile is called, and whatever the API server and the Vault
    -- servers answer, if the API server and the functions of the Vault package that make a client do
    -- not panic.
    pub serve-Safe :
        (ts : List Turn) (w : World S)
        → All Answering ts
        → let out = serve (operator_reconciler unicode_lower p) ts w in
          All (λ result. result ≢ panic) out.0
          × (length (keys_sent out.1.trace) ≤ length (keys_sent w.trace) + allowances ts)
    unfolding new_default_vault_client_repository new_vault_unseal_config_reconciler
    serve-Safe ts w answers = (serve-returns [] _ ts w tt answers, serve-sent [] _ ts w tt)
