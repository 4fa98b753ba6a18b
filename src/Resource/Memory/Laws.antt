-- ===== src/Resource/Memory/Laws.antt =====
-- Two memories that agree on some addresses, and what an allocation keeps.
use vault_autounseal_operato.Prelude.{ℕ, suc, ◌≤◌, ◌<◌, ◌≡◌, refl, ◌∙◌, arith}
use vault_autounseal_operato.Resource.Memory.{
  Memory, Store, put, ints, times, string_arrays, string_maps, instance_arrays, condition_arrays,
  status_arrays, config_arrays, others,
}

-- A set of addresses.
abbrev pub Region : Type 1
Region = ℕ → Type 0

abbrev pub below : ℕ → Region
below n a = a < n

-- From `n` to before `k`.
abbrev pub between : ℕ → ℕ → Region
between n k a = (n ≤ a) × (a < k)

abbrev On : {A : Type 0} → Region → (ℕ → A) → (ℕ → A) → Type 0
On R f f' = (a : ℕ) → R a → f' a ≡ f a

put_same : {A : Type 0} (a : ℕ) (x : A) (f : ℕ → A) → put a x f a ≡ x
unfolding put
put_same a x f = ground arith

put_other : {A : Type 0} (a : ℕ) (x : A) (f : ℕ → A) (b : ℕ) → b < a → put a x f b ≡ f b
unfolding put
put_other a x f b h = ground arith

module _ {Meta Other : Type 0} where
  -- The two memories hold the same at each address of the region.
  pub record Agree (R : Region) (m m' : Memory Meta Other) : Type 0 where
    pub ints_agree : On R m.ints m'.ints
    pub times_agree : On R m.times m'.times
    pub string_arrays_agree : On R m.string_arrays m'.string_arrays
    pub string_maps_agree : On R m.string_maps m'.string_maps
    pub instance_arrays_agree : On R m.instance_arrays m'.instance_arrays
    pub condition_arrays_agree : On R m.condition_arrays m'.condition_arrays
    pub status_arrays_agree : On R m.status_arrays m'.status_arrays
    pub config_arrays_agree : On R m.config_arrays m'.config_arrays
    pub others_agree : On R m.others m'.others

  pub agree :
      (R : Region) (m m' : Memory Meta Other)
      → On R m.ints m'.ints
      → On R m.times m'.times
      → On R m.string_arrays m'.string_arrays
      → On R m.string_maps m'.string_maps
      → On R m.instance_arrays m'.instance_arrays
      → On R m.condition_arrays m'.condition_arrays
      → On R m.status_arrays m'.status_arrays
      → On R m.config_arrays m'.config_arrays
      → On R m.others m'.others
      → Agree R m m'
  agree R m m' a b c d e f g h i = record {
    ints_agree = a;
    times_agree = b;
    string_arrays_agree = c;
    string_maps_agree = d;
    instance_arrays_agree = e;
    condition_arrays_agree = f;
    status_arrays_agree = g;
    config_arrays_agree = h;
    others_agree = i;
  }

  pub Agree-refl : {R : Region} (m : Memory Meta Other) → Agree R m m
  Agree-refl {R} m =
      agree R m m (λ a h. refl) (λ a h. refl) (λ a h. refl) (λ a h. refl) (λ a h. refl)
        (λ a h. refl) (λ a h. refl) (λ a h. refl) (λ a h. refl)

  pub Agree-trans :
      {R Q : Region} {m m' m'' : Memory Meta Other}
      → ((a : ℕ) → R a → Q a)
      → Agree R m m'
      → Agree Q m' m''
      → Agree R m m''
  Agree-trans sub p q = record {
    ints_agree = λ a h. q.ints_agree a (sub a h) ∙ p.ints_agree a h;
    times_agree = λ a h. q.times_agree a (sub a h) ∙ p.times_agree a h;
    string_arrays_agree = λ a h. q.string_arrays_agree a (sub a h) ∙ p.string_arrays_agree a h;
    string_maps_agree = λ a h. q.string_maps_agree a (sub a h) ∙ p.string_maps_agree a h;
    instance_arrays_agree =
        λ a h. q.instance_arrays_agree a (sub a h) ∙ p.instance_arrays_agree a h;
    condition_arrays_agree =
        λ a h. q.condition_arrays_agree a (sub a h) ∙ p.condition_arrays_agree a h;
    status_arrays_agree = λ a h. q.status_arrays_agree a (sub a h) ∙ p.status_arrays_agree a h;
    config_arrays_agree = λ a h. q.config_arrays_agree a (sub a h) ∙ p.config_arrays_agree a h;
    others_agree = λ a h. q.others_agree a (sub a h) ∙ p.others_agree a h;
  }

  -- A smaller region.
  pub Agree-on :
      {R Q : Region} {m m' : Memory Meta Other}
      → ((a : ℕ) → R a → Q a)
      → Agree Q m m'
      → Agree R m m'
  Agree-on sub q = record {
    ints_agree = λ a h. q.ints_agree a (sub a h);
    times_agree = λ a h. q.times_agree a (sub a h);
    string_arrays_agree = λ a h. q.string_arrays_agree a (sub a h);
    string_maps_agree = λ a h. q.string_maps_agree a (sub a h);
    instance_arrays_agree = λ a h. q.instance_arrays_agree a (sub a h);
    condition_arrays_agree = λ a h. q.condition_arrays_agree a (sub a h);
    status_arrays_agree = λ a h. q.status_arrays_agree a (sub a h);
    config_arrays_agree = λ a h. q.config_arrays_agree a (sub a h);
    others_agree = λ a h. q.others_agree a (sub a h);
  }

  -- What the copies need of the objects of one type.
  pub record IsStore {A : Type 0} (s : Store (Memory Meta Other) A) : Type 1 where
    pub next-memory : (m : Memory Meta Other) → s.next m ≡ m.next
    pub next-alloc : (x : A) (m : Memory Meta Other) → (s.alloc x m).next ≡ suc m.next
    pub read-alloc : (x : A) (m : Memory Meta Other) → s.read (s.alloc x m) m.next ≡ x
    pub alloc-agree : (x : A) (m : Memory Meta Other) → Agree (below m.next) m (s.alloc x m)
    pub read-agree :
        {R : Region} {m m' : Memory Meta Other}
        → Agree R m m'
        → (a : ℕ) → R a
        → s.read m' a ≡ s.read m a

  pub ints-IsStore : IsStore ints
  ints-IsStore = record {
    next-memory = λ m. refl;
    next-alloc = λ x m. refl;
    read-alloc = λ x m. put_same m.next x m.ints;
    alloc-agree = λ x m.
        agree (below m.next) m (ints.alloc x m) (put_other m.next x m.ints) (λ a h. refl)
          (λ a h. refl) (λ a h. refl) (λ a h. refl) (λ a h. refl) (λ a h. refl) (λ a h. refl)
          (λ a h. refl);
    read-agree = λ g. g.ints_agree;
  }

  pub times-IsStore : IsStore times
  times-IsStore = record {
    next-memory = λ m. refl;
    next-alloc = λ x m. refl;
    read-alloc = λ x m. put_same m.next x m.times;
    alloc-agree = λ x m.
        agree (below m.next) m (times.alloc x m) (λ a h. refl) (put_other m.next x m.times)
          (λ a h. refl) (λ a h. refl) (λ a h. refl) (λ a h. refl) (λ a h. refl) (λ a h. refl)
          (λ a h. refl);
    read-agree = λ g. g.times_agree;
  }

  pub string_arrays-IsStore : IsStore string_arrays
  string_arrays-IsStore = record {
    next-memory = λ m. refl;
    next-alloc = λ x m. refl;
    read-alloc = λ x m. put_same m.next x m.string_arrays;
    alloc-agree = λ x m.
        agree (below m.next) m (string_arrays.alloc x m) (λ a h. refl) (λ a h. refl)
          (put_other m.next x m.string_arrays) (λ a h. refl) (λ a h. refl) (λ a h. refl)
          (λ a h. refl) (λ a h. refl) (λ a h. refl);
    read-agree = λ g. g.string_arrays_agree;
  }

  pub string_maps-IsStore : IsStore string_maps
  string_maps-IsStore = record {
    next-memory = λ m. refl;
    next-alloc = λ x m. refl;
    read-alloc = λ x m. put_same m.next x m.string_maps;
    alloc-agree = λ x m.
        agree (below m.next) m (string_maps.alloc x m) (λ a h. refl) (λ a h. refl) (λ a h. refl)
          (put_other m.next x m.string_maps) (λ a h. refl) (λ a h. refl) (λ a h. refl) (λ a h. refl)
          (λ a h. refl);
    read-agree = λ g. g.string_maps_agree;
  }

  pub instance_arrays-IsStore : IsStore instance_arrays
  instance_arrays-IsStore = record {
    next-memory = λ m. refl;
    next-alloc = λ x m. refl;
    read-alloc = λ x m. put_same m.next x m.instance_arrays;
    alloc-agree = λ x m.
        agree (below m.next) m (instance_arrays.alloc x m) (λ a h. refl) (λ a h. refl) (λ a h. refl)
          (λ a h. refl) (put_other m.next x m.instance_arrays) (λ a h. refl) (λ a h. refl)
          (λ a h. refl) (λ a h. refl);
    read-agree = λ g. g.instance_arrays_agree;
  }

  pub condition_arrays-IsStore : IsStore condition_arrays
  condition_arrays-IsStore = record {
    next-memory = λ m. refl;
    next-alloc = λ x m. refl;
    read-alloc = λ x m. put_same m.next x m.condition_arrays;
    alloc-agree = λ x m.
        agree (below m.next) m (condition_arrays.alloc x m) (λ a h. refl) (λ a h. refl)
          (λ a h. refl) (λ a h. refl) (λ a h. refl) (put_other m.next x m.condition_arrays)
          (λ a h. refl) (λ a h. refl) (λ a h. refl);
    read-agree = λ g. g.condition_arrays_agree;
  }

  pub status_arrays-IsStore : IsStore status_arrays
  status_arrays-IsStore = record {
    next-memory = λ m. refl;
    next-alloc = λ x m. refl;
    read-alloc = λ x m. put_same m.next x m.status_arrays;
    alloc-agree = λ x m.
        agree (below m.next) m (status_arrays.alloc x m) (λ a h. refl) (λ a h. refl) (λ a h. refl)
          (λ a h. refl) (λ a h. refl) (λ a h. refl) (put_other m.next x m.status_arrays)
          (λ a h. refl) (λ a h. refl);
    read-agree = λ g. g.status_arrays_agree;
  }

  pub config_arrays-IsStore : IsStore config_arrays
  config_arrays-IsStore = record {
    next-memory = λ m. refl;
    next-alloc = λ x m. refl;
    read-alloc = λ x m. put_same m.next x m.config_arrays;
    alloc-agree = λ x m.
        agree (below m.next) m (config_arrays.alloc x m) (λ a h. refl) (λ a h. refl) (λ a h. refl)
          (λ a h. refl) (λ a h. refl) (λ a h. refl) (λ a h. refl)
          (put_other m.next x m.config_arrays) (λ a h. refl);
    read-agree = λ g. g.config_arrays_agree;
  }

  pub others-IsStore : IsStore others
  others-IsStore = record {
    next-memory = λ m. refl;
    next-alloc = λ x m. refl;
    read-alloc = λ x m. put_same m.next x m.others;
    alloc-agree = λ x m.
        agree (below m.next) m (others.alloc x m) (λ a h. refl) (λ a h. refl) (λ a h. refl)
          (λ a h. refl) (λ a h. refl) (λ a h. refl) (λ a h. refl) (λ a h. refl)
          (put_other m.next x m.others);
    read-agree = λ g. g.others_agree;
  }
