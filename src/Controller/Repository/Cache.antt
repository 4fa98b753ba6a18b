-- ===== src/Controller/Repository/Cache.antt =====
-- pkg/controller/vaultunsealconfig_controller.go: the cache of DefaultVaultClientRepository.
use vault_autounseal_operato.Prelude.{
  ℕ, suc, ◌+◌, ◌≡◌, refl, sym, ap, ◌∙◌, inl, inr, none, some, List, [], ◌∷◌, arith, Bool-cases,
  Option-cases, if◌then◌else◌,
}
use vault_autounseal_operato.GoLib.Strings.{Bytes, bytes_eq}
use vault_autounseal_operato.GoLib.Strings.Laws.{bytes_eq_iff}
use vault_autounseal_operato.GoLib.Outcome.{Outcome, ok, err, panic}
use vault_autounseal_operato.Errors.{Err}
use vault_autounseal_operato.Strategy.World.{
  World, Event, asked_seal_status, sent_key, asked_init_status, asked_health, unseal_attempt,
  seal_status_check, health_check, cleared_token,
}
use vault_autounseal_operato.Client.Api.{Api}
use vault_autounseal_operato.Client.Methods.{Client, close, as_vault_client}
use vault_autounseal_operato.Controller.Types.{VaultInstance}
use vault_autounseal_operato.Controller.Repository.{
  Made, made_client, made_other, ClientFactory, Clients, client_timeout, find_client, add_client,
  after_make, get_client, close_each, close_all,
}

module _ {S : Type 0} (api : Api S) where
  pub find_client-add :
      (key key' : Bytes) (c : Client S) (cs : Clients S)
      → find_client key' (add_client key c cs)
        ≡ (if bytes_eq key key' then some c else find_client key' cs)
  unfolding find_client add_client
  find_client-add key key' c cs = refl

  after_make-keeps :
      (key key' : Bytes) (d : Client S) (cs : Clients S) (o : Outcome Err (Made S))
      (factory : ClientFactory S)
      → find_client key cs ≡ none
      → find_client key' cs ≡ some d
      → find_client key' (after_make api factory key cs o).1 ≡ some d
  after_make-keeps key key' d cs (ok (made_client c)) factory new old =
      elim (Bool-cases (bytes_eq key key')) [
        | inl e ↦
            ground (arith, sym new ∙ ap (λ k. find_client k cs) ((bytes_eq_iff key key').0 e) ∙ old)
        | inr e ↦ find_client-add key key' c cs ∙ rw e old
      ]
  after_make-keeps key key' d cs (ok (made_other v)) factory new old = old
  after_make-keeps key key' d cs (err e) factory new old = old
  after_make-keeps key key' d cs panic factory new old = old

  pub get_client-kept :
      (factory : ClientFactory S) (key key' : Bytes) (i : VaultInstance) (cs : Clients S)
      (d : Client S)
      → find_client key' cs ≡ some d
      → find_client key' (get_client api factory key i cs).1 ≡ some d
  unfolding get_client
  get_client-kept factory key key' i cs d old = elim (Option-cases (find_client key cs)) [
    | inl new ↦
        rw (new, get_client)
          (after_make-keeps key key' d cs (factory i.endpoint i.tls_skip_verify client_timeout)
            factory new old)
    | inr (c, e) ↦ rw (e, get_client) old
  ]

  pub get_client-found :
      (factory : ClientFactory S) (key : Bytes) (j : VaultInstance) (cs : Clients S) (d : Client S)
      → find_client key cs ≡ some d
      → get_client api factory key j cs ≡ (ok (as_vault_client api d), cs)
  unfolding get_client
  get_client-found factory key j cs d h = rw (h, get_client) refl

  pub get_client-new :
      (factory : ClientFactory S) (key : Bytes) (j : VaultInstance) (cs : Clients S)
      → find_client key cs ≡ none
      → get_client api factory key j cs
        ≡ after_make api factory key cs (factory j.endpoint j.tls_skip_verify client_timeout)
  unfolding get_client
  get_client-new factory key j cs h = rw (h, get_client) refl

  -- A client stays in the cache whatever is asked for afterwards, and each later call with its key
  -- answers with it and leaves the cache alone: the endpoint, the TLS setting and the factory no longer
  -- matter.
  pub get_client-keeps :
      (factory : ClientFactory S) (key key' : Bytes) (i j : VaultInstance) (cs : Clients S)
      (d : Client S)
      → find_client key' cs ≡ some d
      → let cs' = (get_client api factory key i cs).1 in
        (find_client key' cs' ≡ some d)
        × (get_client api factory key' j cs' ≡ (ok (as_vault_client api d), cs'))
  get_client-keeps factory key key' i j cs d old =
      let kept = get_client-kept factory key key' i cs d old in
      (kept, get_client-found factory key' j (get_client api factory key i cs).1 d kept)

-- How often a trace shows that a token was cleared.
pub tokens_cleared : List Event → ℕ
tokens_cleared [] = 0
tokens_cleared (cleared_token ∷ es) = suc (tokens_cleared es)
tokens_cleared (sent_key k ∷ es) = tokens_cleared es
tokens_cleared (asked_seal_status ∷ es) = tokens_cleared es
tokens_cleared (asked_init_status ∷ es) = tokens_cleared es
tokens_cleared (asked_health ∷ es) = tokens_cleared es
tokens_cleared (unseal_attempt a b d ∷ es) = tokens_cleared es
tokens_cleared (seal_status_check a b d ∷ es) = tokens_cleared es
tokens_cleared (health_check a b d ∷ es) = tokens_cleared es

module _ {S : Type 0} where
  pub open_clients : Clients S → ℕ
  open_clients [] = 0
  open_clients ((k, c) ∷ cs) = let rest = open_clients cs in if c.closed then rest else suc rest

  close_each_lem :
      (cs : Clients S) (w : World S)
      → ((close_each cs w).server ≡ w.server)
        × (tokens_cleared (close_each cs w).trace ≡ tokens_cleared w.trace + open_clients cs)
  unfolding close_each close tokens_cleared open_clients
  close_each_lem [] w = (refl, omega arith)
  close_each_lem ((k, c) ∷ cs) w = ground (arith, close_each_lem cs (close c w).1)

  -- Close of the repository leaves it without clients, clears a token for each client that was open
  -- and for no other, and sends the servers nothing that changes them.
  pub close_all_lem :
      (cs : Clients S) (w : World S)
      → let (left, w') = close_all cs w in
        (left ≡ [])
        × (tokens_cleared w'.trace ≡ tokens_cleared w.trace + open_clients cs)
        × (w'.server ≡ w.server)
  unfolding close_all
  close_all_lem cs w = let (same, cleared) = close_each_lem cs w in (refl, cleared, same)
