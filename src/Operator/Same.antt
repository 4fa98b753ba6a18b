-- ===== src/Operator/Same.antt =====
-- The controller of pkg/operator/controller against that of pkg/controller with the default factory: a
-- pass over the instances does the same.
use mathlib.Core.Option
use mathlib.Core.Path.{subst, ap₂}
use vault_autounseal_operato.Prelude.{
  ◌⊎◌, ◌≡◌, refl, ap, ◌∙◌, inl, inr, Bool, not, ◌&&◌, Option, none, some, List, [], ◌∷◌, arith,
  Option-cases, if◌then◌else◌,
}
use vault_autounseal_operato.GoLib.Strings.{Bytes, bytes_eq}
use vault_autounseal_operato.GoLib.Strings.Laws.{bytes_eq_iff}
use vault_autounseal_operato.GoLib.Outcome.{Outcome, ok, err, panic}
use vault_autounseal_operato.Errors.{Err}
use vault_autounseal_operato.Strategy.World.{World, Ctx}
use vault_autounseal_operato.Client.Api.{Api}
use vault_autounseal_operato.Client.Methods.{Client}
use vault_autounseal_operato.Client.Config.{ApiPackage, new_client}
use vault_autounseal_operato.Controller.Types.{VaultInstance, VaultInstanceStatus}
use vault_autounseal_operato.Controller.Repository.{
  Clients, client_key, find_client, add_client, after_make, default_client_factory, made_of,
}
use vault_autounseal_operato.Controller.Repository.Cache.{get_client-found, get_client-new}
use vault_autounseal_operato.Controller.Instance
use vault_autounseal_operato.Controller.Instance.{work_on, with_client, status_or_failed}
use vault_autounseal_operato.Operator.{
  put_client, after_new_client, process_vault_instance, process_vault_instances, timeout,
}

module _ {S : Type 0} where
  -- Two maps with the same client under each key.
  abbrev pub SameMap : Clients S → Clients S → Type 0
  SameMap cs ds = (key : Bytes) → find_client key cs ≡ find_client key ds

  pub find_client-put :
      (key k : Bytes) (c : Client S) (cs : Clients S)
      → find_client k (put_client key c cs) ≡ (if bytes_eq key k then some c else find_client k cs)
  unfolding find_client put_client
  find_client-put key k c [] = refl
  find_client-put key k c ((j, d) ∷ cs) =
      ground (
        arith,
        bytes_eq_iff j key,
        bytes_eq_iff j k,
        bytes_eq_iff key k,
        find_client-put key k c cs,
      )

  put_client-SameMap :
      (key : Bytes) (c : Client S) (cs ds : Clients S)
      → SameMap cs ds
      → SameMap (put_client key c cs) (add_client key c ds)
  unfolding find_client add_client
  put_client-SameMap key c cs ds same k =
      find_client-put key k c cs ∙ ap (λ o. if bytes_eq key k then some c else o) (same k)

-- The same status, but for the text of an error.
abbrev pub Alike : VaultInstanceStatus → VaultInstanceStatus → Type 0
Alike a b = (a.name ≡ b.name) × (a.sealed ≡ b.sealed) × (a.last_unsealed ≡ b.last_unsealed)

abbrev pub AlikeAll : List VaultInstanceStatus → List VaultInstanceStatus → Type 0
AlikeAll [] [] = Unit
AlikeAll [] (b ∷ bs) = ⊥
AlikeAll (a ∷ as') [] = ⊥
AlikeAll (a ∷ as') (b ∷ bs) = Alike a b × AlikeAll as' bs

-- The same end: a status, an error (of whatever text) or a panic.
abbrev pub AlikeEnd : Outcome Err VaultInstanceStatus → Outcome Err VaultInstanceStatus → Type 0
AlikeEnd (ok a) (ok b) = a ≡ b
AlikeEnd (ok a) (err e) = ⊥
AlikeEnd (ok a) panic = ⊥
AlikeEnd (err e) (ok b) = ⊥
AlikeEnd (err e) (err f) = Unit
AlikeEnd (err e) panic = ⊥
AlikeEnd panic (ok b) = ⊥
AlikeEnd panic (err f) = ⊥
AlikeEnd panic panic = Unit

AlikeEnd-refl : (o : Outcome Err VaultInstanceStatus) → AlikeEnd o o
AlikeEnd-refl (ok a) = refl
AlikeEnd-refl (err e) = tt
AlikeEnd-refl panic = tt

-- Both passes panic, or both end with statuses that are alike and the same readiness.
abbrev pub AlikePass :
    Option (List VaultInstanceStatus × Bool) → Option (List VaultInstanceStatus × Bool) → Type 0
AlikePass none none = Unit
AlikePass none (some r) = ⊥
AlikePass (some l) none = ⊥
AlikePass (some l) (some r) = AlikeAll l.0 r.0 × (l.1 ≡ r.1)

module _ {S : Type 0} (unicode_lower : Bytes → Bytes) (p : ApiPackage) (api : Api S) (ctx : Ctx)
    (namespace : Bytes) where
  -- The results of the two controllers for one instance.
  abbrev pub AlikeStep :
      Outcome Err VaultInstanceStatus × Clients S × World S
      → Outcome Err VaultInstanceStatus × Clients S × World S
      → Type 0
  AlikeStep l r = AlikeEnd l.0 r.0 × SameMap l.1 r.1 × (l.2 ≡ r.2)

  made-alike :
      (i : VaultInstance) (key : Bytes) (cs ds : Clients S) (w : World S)
      (o : Outcome Err (Client S))
      → SameMap cs ds
      → AlikeStep (after_new_client unicode_lower p api ctx i key cs w o) (
          with_client ctx api
            (default_client_factory unicode_lower p)
            i
            (after_make api (default_client_factory unicode_lower p) key ds (made_of o))
            w)
  made-alike i key cs ds w (ok c) same =
      (AlikeEnd-refl _, put_client-SameMap key c cs ds same, refl)
  made-alike i key cs ds w (err e) same = (tt, same, refl)
  made-alike i key cs ds w panic same = (tt, same, refl)

  process_vault_instance-alike :
      (i : VaultInstance) (cs ds : Clients S) (w : World S)
      → SameMap cs ds
      → AlikeStep (process_vault_instance unicode_lower p api ctx i namespace cs w) (
          Instance.process_vault_instance ctx api
            (default_client_factory unicode_lower p)
            i
            namespace
            ds
            w)
  unfolding process_vault_instance Instance.process_vault_instance default_client_factory
  process_vault_instance-alike i cs ds w same =
      let key = client_key namespace i.name in
      let factory = default_client_factory unicode_lower p in
      elim (Option-cases (find_client key ds)) [
        | inl e ↦
            rw (same key ∙ e, process_vault_instance)
              (rw (get_client-new api factory key i ds e) (
                made-alike i key cs ds w
                  (new_client unicode_lower p i.endpoint i.tls_skip_verify timeout) same))
        | inr (c, e) ↦
            rw (same key ∙ e, process_vault_instance)
              (rw (get_client-found api factory key i ds c e) (AlikeEnd-refl _, same, refl))
      ]

  status-Alike :
      (name : Bytes) (a b : Outcome Err VaultInstanceStatus)
      → AlikeEnd a b
      → ((status_or_failed name a ≡ none) × (status_or_failed name b ≡ none))
        ⊎ ((st st' : VaultInstanceStatus) × (status_or_failed name a ≡ some st)
            × (status_or_failed name b ≡ some st')
            × Alike st st')
  status-Alike name (ok a) (ok b) h =
      inr
        (a, b, refl, refl, (ap (λ s. s.name) h, ap (λ s. s.sealed) h, ap (λ s. s.last_unsealed) h))
  status-Alike name (err e) (err f) h = inr (_, _, refl, refl, (refl, refl, refl))
  status-Alike name panic panic h = inl (refl, refl)
  status-Alike name (ok a) (err e) h = absurd h
  status-Alike name (ok a) panic h = absurd h
  status-Alike name (err e) (ok b) h = absurd h
  status-Alike name (err e) panic h = absurd h
  status-Alike name panic (ok b) h = absurd h
  status-Alike name panic (err f) h = absurd h

  pass-cons :
      (st st' : VaultInstanceStatus) (l r : Option (List VaultInstanceStatus × Bool))
      → Alike st st'
      → AlikePass l r
      → AlikePass (Option.map (λ x. (st ∷ x.0, x.1)) l) (Option.map (λ x. (st' ∷ x.0, x.1)) r)
  pass-cons st st' none none a h = tt
  pass-cons st st' none (some r) a h = h
  pass-cons st st' (some l) none a h = h
  pass-cons st st' (some l) (some r) a h = ((a, h.0), h.1)

  step-alike :
      (i : VaultInstance) (cs ds : Clients S) (w w' : World S)
      → SameMap cs ds
      → w ≡ w'
      → AlikeStep (process_vault_instance unicode_lower p api ctx i namespace cs w) (
          Instance.process_vault_instance ctx api
            (default_client_factory unicode_lower p)
            i
            namespace
            ds
            w')
  step-alike i cs ds w w' same e =
      subst
        (λ v. AlikeStep (process_vault_instance unicode_lower p api ctx i namespace cs w) (
          Instance.process_vault_instance ctx api (default_client_factory unicode_lower p) i
            namespace ds v))
        e (process_vault_instance-alike i cs ds w same)

  pass-alike :
      (is : List VaultInstance) (ready ready' : Bool) (cs ds : Clients S) (w w' : World S)
      → ready ≡ ready'
      → SameMap cs ds
      → w ≡ w'
      → let l = process_vault_instances unicode_lower p api ctx is namespace ready cs w in
        let r =
          Instance.process_vault_instances ctx api
            (default_client_factory unicode_lower p)
            is
            namespace
            ready'
            ds
            w' in
        AlikePass l.0 r.0 × SameMap l.1 r.1 × (l.2 ≡ r.2)
  unfolding process_vault_instances Instance.process_vault_instances
  pass-alike [] ready ready' cs ds w w' level same worlds = ((tt, level), same, worlds)
  pass-alike (i ∷ is) ready ready' cs ds w w' level same worlds =
      let one = process_vault_instance unicode_lower p api ctx i namespace cs w in
      let other =
        Instance.process_vault_instance ctx api (default_client_factory unicode_lower p) i namespace
          ds w' in
      let (end, maps, times) = step-alike i cs ds w w' same worlds in
      elim (status-Alike i.name one.0 other.0 end) [
        | inl (e, f) ↦
            rw (e, process_vault_instances)
              (rw (f, Instance.process_vault_instances) (tt, maps, times))
        | inr (st, st', e, f, a) ↦
            let (rest, maps', times') =
              pass-alike is (ready && not st.sealed) (ready' && not st'.sealed) one.1 other.1 one.2
                other.2 (ap₂ (λ x y. x && not y) level a.1) maps times in
            rw (e, process_vault_instances)
              (rw (f, Instance.process_vault_instances)
                (pass-cons st st' _ _ a rest, maps', times'))
      ]

  -- From maps with the same clients, a pass of this controller over the instances and a pass of the
  -- other one, with the default factory and in the same context, end alike: both panic, or they yield
  -- statuses that differ at most in the texts of errors, and agree on the readiness. They leave maps with
  -- the same clients, and have made the same requests.
  pub process_vault_instances-alike :
      (is : List VaultInstance) (ready : Bool) (cs ds : Clients S) (w : World S)
      → SameMap cs ds
      → let l = process_vault_instances unicode_lower p api ctx is namespace ready cs w in
        let r =
          Instance.process_vault_instances ctx api
            (default_client_factory unicode_lower p)
            is
            namespace
            ready
            ds
            w in
        AlikePass l.0 r.0 × SameMap l.1 r.1 × (l.2 ≡ r.2)
  process_vault_instances-alike is ready cs ds w same =
      pass-alike is ready ready cs ds w w refl same refl
