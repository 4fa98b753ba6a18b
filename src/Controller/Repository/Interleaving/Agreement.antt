-- ===== src/Controller/Repository/Interleaving/Agreement.antt =====
-- pkg/controller/vaultunsealconfig_controller.go: concurrent calls of GetClient agree.
use vault_autounseal_operato.Prelude.{
  ℕ, ◌≡◌, ◌≢◌, refl, sym, ap, ◌∙◌, inl, inr, Bool, some, List, [], ◌∷◌, ◌==◌, ==_iff, ℤ, arith,
  Bool-cases, Option-cases, some_injective, if_true, if_false,
}
use vault_autounseal_operato.GoLib.Strings.{Bytes}
use vault_autounseal_operato.GoLib.Strings.Laws.{bytes_eq_refl}
use vault_autounseal_operato.GoLib.Outcome.{Outcome, ok, err, panic}
use vault_autounseal_operato.Errors.{Err}
use vault_autounseal_operato.Strategy.Interface.{VaultClient}
use vault_autounseal_operato.Client.Api.{Api}
use vault_autounseal_operato.Client.Methods.{Client, as_vault_client}
use vault_autounseal_operato.Controller.Types.{VaultInstance}
use vault_autounseal_operato.Controller.Repository.{
  Made, made_client, made_other, ClientFactory, Clients, client_timeout, find_client, after_make,
  get_client,
}
use vault_autounseal_operato.Controller.Repository.Cache.{
  find_client-add, get_client-kept, get_client-found, get_client-new,
}
use vault_autounseal_operato.Controller.Repository.Interleaving.{
  Progress, called, reading, missed, waiting, writing, answered, Calls, update, after_look, advance,
  run, all_called,
}

-- The factory makes clients of the type *vault.Client, as the default one does.
abbrev pub IsConcrete : {S : Type 0} → Outcome Err (Made S) → Type 0
IsConcrete (ok (made_client c)) = Unit
IsConcrete (ok (made_other v)) = ⊥
IsConcrete (err e) = Unit
IsConcrete panic = Unit

module _ {S : Type 0} (api : Api S) where
  -- The answer is the client that the map has under the key.
  abbrev pub Holds : Bytes → Clients S → VaultClient S → Type 0
  Holds key cs v = (c : Client S) × (v ≡ as_vault_client api c) × (find_client key cs ≡ some c)

  ok_injective : {A : Type 0} {a b : A} → ◌≡◌ {A = Outcome Err A} (ok a) (ok b) → a ≡ b
  ok_injective h = ground (arith, h)

  after_make-Holds :
      (key : Bytes) (cs : Clients S) (o : Outcome Err (Made S)) (v : VaultClient S)
      (factory : ClientFactory S)
      → IsConcrete o
      → (after_make api factory key cs o).0 ≡ ok v
      → Holds key (after_make api factory key cs o).1 v
  after_make-Holds key cs (ok (made_client c)) v factory concrete h =
      (c, sym (ok_injective h), find_client-add api key key c cs ∙ rw (bytes_eq_refl key) refl)
  after_make-Holds key cs (ok (made_other w)) v factory concrete h = absurd concrete
  after_make-Holds key cs (err e) v factory concrete h = ground (arith, h)
  after_make-Holds key cs panic v factory concrete h = ground (arith, h)

  get_client-Holds :
      (key : Bytes) (i : VaultInstance) (cs : Clients S) (v : VaultClient S)
      (factory : ClientFactory S)
      → IsConcrete (factory i.endpoint i.tls_skip_verify client_timeout)
      → (get_client api factory key i cs).0 ≡ ok v
      → Holds key (get_client api factory key i cs).1 v
  get_client-Holds key i cs v factory concrete h = elim (Option-cases (find_client key cs)) [
    | inl e ↦
        let same = get_client-new api factory key i cs e in
        rw same (
          after_make-Holds key cs (factory i.endpoint i.tls_skip_verify client_timeout) v factory
            concrete (ap (λ r. r.0) (sym same) ∙ h))
    | inr (c, e) ↦
        let same = get_client-found api factory key i cs c e in
        rw same (c, sym (ok_injective (ap (λ r. r.0) (sym same) ∙ h)), e)
  ]

  look-Holds :
      (key : Bytes) (cs : Clients S) (v : VaultClient S)
      → after_look api (find_client key cs) ≡ answered (ok v)
      → Holds key cs v
  look-Holds key cs v h = elim (Option-cases (find_client key cs)) [
    | inl e ↦ ground (arith, h, e)
    | inr (c, e) ↦ (c, ground (arith, h, e), e)
  ]

  module _ (factory : ℕ → ClientFactory S) (key : ℕ → Bytes) (instance_of : ℕ → VaultInstance)
      (concrete : (n : ℕ) (url : Bytes) (skip : Bool) (timeout : ℤ)
        → IsConcrete (factory n url skip timeout)) where
    -- Every call that came back with a client came back with the one in the map.
    abbrev pub Agree : Calls S → Type 0
    Agree s = (i : ℕ) (v : VaultClient S) → s.progress i ≡ answered (ok v) → Holds (key i) s.cache v

    update-Agree :
        (i : ℕ) (s : Calls S) (cs : Clients S) (p : Progress S)
        → Agree s
        → ((k : Bytes) (c : Client S) → find_client k s.cache ≡ some c → find_client k cs ≡ some c)
        → ((v : VaultClient S) → p ≡ answered (ok v) → Holds (key i) cs v)
        → (j : ℕ) (v : VaultClient S) → update s.progress i p j ≡ answered (ok v)
        → Holds (key j) cs v
    update-Agree i s cs p agree kept new j v h = elim (Bool-cases (i == j)) [
      | inl e ↦ rw (← (==_iff i j).0 e) (new v (sym (if_true (i == j) _ _ e) ∙ h))
      | inr e ↦
          let (c, same, found) = agree j v (sym (if_false (i == j) _ _ e) ∙ h) in
          (c, same, kept (key j) c found)
    ]

    -- A call that goes on without an answer.
    moving-Agree :
        (i : ℕ) (s : Calls S) (p : Progress S)
        → Agree s
        → ((v : VaultClient S) → p ≢ answered (ok v))
        → (j : ℕ) (v : VaultClient S) → update s.progress i p j ≡ answered (ok v)
        → Holds (key j) s.cache v
    moving-Agree i s p agree open_call =
        update-Agree i s s.cache p agree (λ k c h. h) (λ v h. absurd (open_call v h))

    advance-Agree :
        (i : ℕ) (s : Calls S) (p : Progress S)
        → Agree s
        → Agree (advance api factory key instance_of i s p)
    unfolding advance
    advance-Agree i s called agree = elim (Bool-cases s.writer) [
      | inl e ↦ rw e agree
      | inr e ↦ rw e (moving-Agree i s reading agree (λ v h. ground (arith, h)))
    ]
    advance-Agree i s reading agree =
        update-Agree i s s.cache (after_look api (find_client (key i) s.cache)) agree (λ k c h. h)
          (look-Holds (key i) s.cache)
    advance-Agree i s missed agree = elim (Bool-cases s.writer) [
      | inl e ↦ rw e agree
      | inr e ↦ rw e (moving-Agree i s waiting agree (λ v h. ground (arith, h)))
    ]
    advance-Agree i s waiting agree = elim (Bool-cases (s.readers == 0)) [
      | inl e ↦ rw e (moving-Agree i s writing agree (λ v h. ground (arith, h)))
      | inr e ↦ rw e agree
    ]
    advance-Agree i s writing agree =
        let got = get_client api (factory s.made) (key i) (instance_of i) s.cache in
        update-Agree i s got.1 (answered got.0) agree
          (λ k c h. get_client-kept api (factory s.made) (key i) k (instance_of i) s.cache c h)
          (λ v h.
            get_client-Holds (key i) (instance_of i) s.cache v (factory s.made)
              (concrete s.made (instance_of i).endpoint (instance_of i).tls_skip_verify
                client_timeout)
              (ground (arith, h)))
    advance-Agree i s (answered o) agree = agree

    run-Agree : (is : List ℕ) (s : Calls S) → Agree s → Agree (run api factory key instance_of is s)
    unfolding run
    run-Agree [] s agree = agree
    run-Agree (i ∷ is) s agree =
        run-Agree is (advance api factory key instance_of i s (s.progress i))
          (advance-Agree i s (s.progress i) agree)

    -- If the factory makes only clients of the type *vault.Client, as the default one does: however many
    -- calls of GetClient run at once, and in whatever order their steps are interleaved, two calls for
    -- one key that come back with clients come back with the same one, and it is the one that the map
    -- has; though each call of the factory may make another client.
    pub run_agree :
        (is : List ℕ) (cs : Clients S) (i j : ℕ) (v w : VaultClient S)
        → let s = run api factory key instance_of is (all_called cs) in
          s.progress i ≡ answered (ok v)
          → s.progress j ≡ answered (ok w)
          → key i ≡ key j
          → (v ≡ w) × Holds (key i) s.cache v
    run_agree is cs i j v w hi hj same =
        let agree = run-Agree is (all_called cs) (λ k x h. ground (arith, h)) in
        let (c, vc, fc) = agree i v hi in
        let (d, wd, fd) = agree j w hj in
        let one = some_injective (sym fc ∙ rw same fd) in
        (vc ∙ ap (as_vault_client api) one ∙ sym wd, (c, vc, fc))
