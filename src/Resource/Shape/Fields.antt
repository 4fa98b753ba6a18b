-- ===== src/Resource/Shape/Fields.antt =====
-- The shapes of pointers, slices, maps and structs, and that the copies of these are deep.
use native.Mathlib.Nat.{le_refl}
use vault_autounseal_operato.Prelude.{ℕ, ◌≡◌, refl, ap, ◌∙◌, Option, none, some, arith}
use vault_autounseal_operato.Resource.Memory.{Memory, Store}
use vault_autounseal_operato.Resource.Memory.Laws.{Region, Agree, Agree-refl, IsStore}
use vault_autounseal_operato.Resource.DeepCopy.{
  Alloc, pure, ◌>>=◌, copy_pointer, deep_copy, deep_copy_object,
}
use vault_autounseal_operato.Resource.Shape.{Shape, IsShape, DeepCopied, Live, Copies}

module _ {Meta Other : Type 0} where
  -- A struct: `fields` are the fields with references, and `view` puts what they read as in their place.
  abbrev pub struct :
      {T V U C : Type 0}
      → (T → V)
      → (T → C → U)
      → Shape (Memory Meta Other) V C
      → Shape (Memory Meta Other) T U
  struct fields view s = record {
    contents = λ m t. view t (s.contents m (fields t));
    Within = λ R m t. s.Within R m (fields t);
  }

  pub struct-Copies :
      {T V U C : Type 0} {s : Shape (Memory Meta Other) V C} {f : V → Alloc (Memory Meta Other) V}
      (fields : T → V) (view : T → C → U) (with_fields : T → V → T)
      → ((t : T) (v : V) → fields (with_fields t v) ≡ v)
      → ((t : T) (v : V) (c : C) → view (with_fields t v) c ≡ view t c)
      → Copies s f
      → Copies (struct fields view s) (λ t. do v ← f (fields t); pure (with_fields t v))
  struct-Copies {s} {f} fields view with_fields fields-with view-with F = record {
    is_shape = record {
      contents-agree = λ z t w. ap (view t) (F.is_shape.contents-agree z (fields t) w);
      Within-agree = λ z t w. F.is_shape.Within-agree z (fields t) w;
      Within-sub = λ sub t w. F.is_shape.Within-sub sub (fields t) w;
    };
    copied = λ m t live.
        let p = F.copied m (fields t) live in
        let v = (f (fields t) m).0 in
        record {
          grows = p.grows;
          kept = p.kept;
          same = rw (fields-with t v) (view-with t v _ ∙ ap (view t) p.same);
          fresh = rw (fields-with t v) p.fresh;
        };
  }

  -- The pointer to a struct that a copy is asked for: nil, or the struct.
  abbrev pub optional :
      {V C : Type 0}
      → Shape (Memory Meta Other) V C
      → Shape (Memory Meta Other) (Option V) (Option C)
  optional s = record {
    contents = λ m o. elim o [ none ↦ none | some v ↦ some (s.contents m v) ];
    Within = λ R m o. elim o [ none ↦ Unit | some v ↦ s.Within R m v ];
  }

  module _ {V C : Type 0} {s : Shape (Memory Meta Other) V C} {f : V → Alloc (Memory Meta Other) V}
      (F : Copies s f) where
    optional-Agree :
        {R : Region} {m m' : Memory Meta Other}
        → Agree R m m'
        → (o : Option V) → (optional s).Within R m o
        → ((optional s).contents m' o ≡ (optional s).contents m o) × (optional s).Within R m' o
    optional-Agree g none w = (refl, tt)
    optional-Agree g (some v) w =
        (ap some (F.is_shape.contents-agree g v w), F.is_shape.Within-agree g v w)

    optional-sub :
        {R Q : Region} (m : Memory Meta Other)
        → ((a : ℕ) → R a → Q a)
        → (o : Option V) → (optional s).Within R m o
        → (optional s).Within Q m o
    optional-sub m sub none w = tt
    optional-sub m sub (some v) w = F.is_shape.Within-sub sub v w

    optional-IsShape : IsShape (optional s)
    optional-IsShape = record {
      contents-agree = λ g o w. (optional-Agree g o w).0;
      Within-agree = λ g o w. (optional-Agree g o w).1;
      Within-sub = optional-sub _;
    }

    deep_copy_object-DeepCopied :
        (m : Memory Meta Other) (o : Option V)
        → Live (optional s) m o
        → DeepCopied (optional s) m o (deep_copy_object f o m)
    unfolding deep_copy_object deep_copy
    deep_copy_object-DeepCopied m none live = record {
      grows = le_refl m.next;
      kept = Agree-refl m;
      same = refl;
      fresh = tt;
    }
    deep_copy_object-DeepCopied m (some v) live =
        let p = F.copied m v live in
        record { grows = p.grows; kept = p.kept; same = ap some p.same; fresh = p.fresh }

    pub deep_copy_object-Copies : Copies (optional s) (deep_copy_object f)
    deep_copy_object-Copies = record {
      is_shape = optional-IsShape;
      copied = deep_copy_object-DeepCopied;
    }

  module _ {A : Type 0} (store : Store (Memory Meta Other) A) where
    abbrev pub at_pointer : Memory Meta Other → Option ℕ → Option A
    at_pointer m none = none
    at_pointer m (some a) = some (store.read m a)

    abbrev pub PointerWithin : Region → Option ℕ → Type 0
    PointerWithin R none = Unit
    PointerWithin R (some a) = R a

    -- A pointer, or a map, to something without references.
    abbrev pub pointer : Shape (Memory Meta Other) (Option ℕ) (Option A)
    pointer = record { contents = at_pointer; Within = λ R m p. PointerWithin R p }

    module _ (laws : IsStore store) where
      at_pointer-Agree :
          {R : Region} {m m' : Memory Meta Other}
          → Agree R m m'
          → (p : Option ℕ) → PointerWithin R p
          → at_pointer m' p ≡ at_pointer m p
      at_pointer-Agree g none w = refl
      at_pointer-Agree g (some a) w = ap some (laws.read-agree g a w)

      PointerWithin-sub :
          {R Q : Region}
          → ((a : ℕ) → R a → Q a)
          → (p : Option ℕ) → PointerWithin R p
          → PointerWithin Q p
      PointerWithin-sub sub none w = tt
      PointerWithin-sub sub (some a) w = sub a w

      copy_pointer-DeepCopied :
          (copy : A → A)
          → ((x : A) → copy x ≡ x)
          → (m : Memory Meta Other) (p : Option ℕ)
          → DeepCopied pointer m p (copy_pointer store copy p m)
      unfolding copy_pointer
      copy_pointer-DeepCopied copy copy_id m none = record {
        grows = le_refl m.next;
        kept = Agree-refl m;
        same = refl;
        fresh = tt;
      }
      copy_pointer-DeepCopied copy copy_id m (some a) =
          let x = copy (store.read m a) in
          record {
            grows = omega (arith, laws.next-alloc x m);
            kept = laws.alloc-agree x m;
            same =
                ap some (rw (laws.next-memory m) (laws.read-alloc x m ∙ copy_id (store.read m a)));
            fresh = (
              omega (arith, laws.next-memory m),
              omega (arith, laws.next-memory m, laws.next-alloc x m),
            );
          }

      pub pointer-Copies :
          (copy : A → A) → ((x : A) → copy x ≡ x) → Copies pointer (copy_pointer store copy)
      pointer-Copies copy copy_id = record {
        is_shape = record {
          contents-agree = at_pointer-Agree;
          Within-agree = λ g p w. w;
          Within-sub = PointerWithin-sub;
        };
        copied = λ m p live. copy_pointer-DeepCopied copy copy_id m p;
      }
