-- ===== src/Controller/Repository/Invariant.antt =====
-- pkg/controller/vaultunsealconfig_controller.go: what holds of every client in the repository, and of
-- what GetClient answers, if it holds of what the factory makes.
use vault_autounseal_operato.Prelude.{
  ◌≡◌, sym, ◌∙◌, inl, inr, Bool, [], ◌∷◌, some, ℤ, arith, Bool-cases, Option-cases, if_true,
  if_false, some_injective,
}
use vault_autounseal_operato.GoLib.Strings.{Bytes, bytes_eq}
use vault_autounseal_operato.GoLib.Outcome.{Outcome, ok, err, panic}
use vault_autounseal_operato.Errors.{Err}
use vault_autounseal_operato.Strategy.Interface.{VaultClient}
use vault_autounseal_operato.Client.Api.{Api}
use vault_autounseal_operato.Client.Methods.{Client, as_vault_client}
use vault_autounseal_operato.Controller.Types.{VaultInstance}
use vault_autounseal_operato.Controller.Repository.{
  Made, made_client, made_other, ClientFactory, Clients, client_timeout, find_client, add_client,
  after_make, get_client,
}

module _ {S : Type 0} where
  -- Every client of the map is good.
  abbrev pub Cached : (Client S → Type 0) → Clients S → Type 0
  Cached Good [] = Unit
  Cached Good ((k, c) ∷ cs) = Good c × Cached Good cs

  -- A call that returns, with what is good or with an error.
  abbrev pub MadeGood :
      (Client S → Type 0) → (VaultClient S → Type 0) → Outcome Err (Made S) → Type 0
  MadeGood Good Fine (ok (made_client c)) = Good c
  MadeGood Good Fine (ok (made_other v)) = Fine v
  MadeGood Good Fine (err e) = Unit
  MadeGood Good Fine panic = ⊥

  abbrev pub FineAnswer : (VaultClient S → Type 0) → Outcome Err (VaultClient S) → Type 0
  FineAnswer Fine (ok v) = Fine v
  FineAnswer Fine (err e) = Unit
  FineAnswer Fine panic = ⊥

  -- The factory returns, and what it makes is good.
  abbrev pub GoodFactory : (Client S → Type 0) → (VaultClient S → Type 0) → ClientFactory S → Type 0
  GoodFactory Good Fine f =
      (url : Bytes) (skip : Bool) (timeout : ℤ) → MadeGood Good Fine (f url skip timeout)

  find_client-good :
      (Good : Client S → Type 0) (key : Bytes) (cs : Clients S) (c : Client S)
      → Cached Good cs
      → find_client key cs ≡ some c
      → Good c
  unfolding find_client
  find_client-good Good key [] c all h = ground (arith, h)
  find_client-good Good key ((k, d) ∷ cs) c all h = elim (Bool-cases (bytes_eq k key)) [
    | inl e ↦ rw (← some_injective (sym (if_true (bytes_eq k key) _ _ e) ∙ h)) all.0
    | inr e ↦ find_client-good Good key cs c all.1 (sym (if_false (bytes_eq k key) _ _ e) ∙ h)
  ]

  module _ (api : Api S) (factory : ClientFactory S) (Good : Client S → Type 0)
      (Fine : VaultClient S → Type 0)
      (behind : (c : Client S) → Good c → Fine (as_vault_client api c))
      (makes : GoodFactory Good Fine factory) where
    after_make-Cached :
        (key : Bytes) (cs : Clients S) (o : Outcome Err (Made S))
        → MadeGood Good Fine o
        → Cached Good cs
        → FineAnswer Fine (after_make api factory key cs o).0
          × Cached Good (after_make api factory key cs o).1
    unfolding add_client
    after_make-Cached key cs (ok (made_client c)) m all = (behind c m, (m, all))
    after_make-Cached key cs (ok (made_other v)) m all = (m, all)
    after_make-Cached key cs (err e) m all = (tt, all)
    after_make-Cached key cs panic m all = absurd m

    pub get_client-Cached :
        (key : Bytes) (i : VaultInstance) (cs : Clients S)
        → Cached Good cs
        → FineAnswer Fine (get_client api factory key i cs).0
          × Cached Good (get_client api factory key i cs).1
    unfolding get_client
    get_client-Cached key i cs all = elim (Option-cases (find_client key cs)) [
      | inl e ↦
          rw (e, get_client)
            (after_make-Cached key cs _ (makes i.endpoint i.tls_skip_verify client_timeout) all)
      | inr (c, e) ↦ rw (e, get_client) (behind c (find_client-good Good key cs c all e), all)
    ]
