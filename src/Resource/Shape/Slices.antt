-- ===== src/Resource/Shape/Slices.antt =====
-- The shape of a slice, and that its copy is deep if that of its elements is.
use native.Mathlib.Nat.{le_trans, le_refl}
use vault_autounseal_operato.Prelude.{
  ℕ, zero, suc, ◌≤◌, ◌≡◌, refl, ap, ◌∙◌, Option, none, some, List, [], ◌∷◌, map, All, length, take,
  drop, length-take, arith,
}
use vault_autounseal_operato.Resource.Memory.{Memory, Store, Slice}
use vault_autounseal_operato.Resource.Memory.Laws.{
  Region, below, Agree, Agree-trans, Agree-refl, IsStore,
}
use vault_autounseal_operato.Resource.DeepCopy.{Alloc, window, copy_slice, copy_each}
use vault_autounseal_operato.Resource.Shape.{
  Shape, IsShape, DeepCopied, Live, Copies, fresh-kept, same-kept, pair-DeepCopied,
}

take_all : {A : Type 0} (n : ℕ) (xs : List A) → length xs ≤ n → take n xs ≡ xs
take_all zero [] h = refl
take_all zero (x ∷ xs) h = absurd (omega arith)
take_all (suc n) [] h = refl
take_all (suc n) (x ∷ xs) h = ap (◌∷◌ x) (take_all n xs (omega arith))

length-copy_each :
    {M A : Type 0} (copy : A → Alloc M A) (xs : List A) (m : M)
    → length (copy_each copy xs m).0 ≡ length xs
unfolding copy_each
length-copy_each copy [] m = refl
length-copy_each copy (x ∷ xs) m = ap suc (length-copy_each copy xs (copy x m).1)

module _ {Meta Other A C : Type 0} (s : Shape (Memory Meta Other) A C) where
  abbrev pub each : Shape (Memory Meta Other) (List A) (List C)
  each = record {
    contents = λ m xs. map (s.contents m) xs;
    Within = λ R m xs. All (s.Within R m) xs;
  }

  module _ (i : IsShape s) where
    each-contents-Agree :
        {R : Region} {m m' : Memory Meta Other}
        → Agree R m m'
        → (xs : List A) → each.Within R m xs
        → each.contents m' xs ≡ each.contents m xs
    each-contents-Agree g [] w = refl
    each-contents-Agree g (x ∷ xs) w = cc (i.contents-agree g x w.0, each-contents-Agree g xs w.1)

    each-Within-Agree :
        {R : Region} {m m' : Memory Meta Other}
        → Agree R m m'
        → (xs : List A) → each.Within R m xs
        → each.Within R m' xs
    each-Within-Agree g [] w = tt
    each-Within-Agree g (x ∷ xs) w = (i.Within-agree g x w.0, each-Within-Agree g xs w.1)

    each-Within-sub :
        {R Q : Region} (m : Memory Meta Other)
        → ((a : ℕ) → R a → Q a)
        → (xs : List A) → each.Within R m xs
        → each.Within Q m xs
    each-Within-sub m sub [] w = tt
    each-Within-sub m sub (x ∷ xs) w = (i.Within-sub sub x w.0, each-Within-sub m sub xs w.1)

    each-IsShape : IsShape each
    each-IsShape = record {
      contents-agree = each-contents-Agree;
      Within-agree = each-Within-Agree;
      Within-sub = each-Within-sub _;
    }

  module _ {f : A → Alloc (Memory Meta Other) A} (F : Copies s f) where
    copy_each-DeepCopied :
        (m : Memory Meta Other) (xs : List A)
        → Live each m xs
        → DeepCopied each m xs (copy_each f xs m)
    unfolding copy_each
    copy_each-DeepCopied m [] live = record {
      grows = le_refl m.next;
      kept = Agree-refl m;
      same = refl;
      fresh = tt;
    }
    copy_each-DeepCopied m (x ∷ xs) live =
        let m1 = (f x m).1 in
        let p =
          pair-DeepCopied {s = s} {t = each} (f x m) (copy_each f xs m1) F.is_shape
            (each-IsShape F.is_shape) live.1 (F.copied m x live.0)
            (λ still. copy_each-DeepCopied m1 xs still) in
        record {
          grows = p.grows;
          kept = p.kept;
          same = ap (λ v. v.0 ∷ v.1) p.same;
          fresh = p.fresh;
        }

  module _ (store : Store (Memory Meta Other) (List A)) where
    abbrev pub at_slice : Memory Meta Other → Option Slice → Option (List C)
    at_slice m none = none
    at_slice m (some v) = some (each.contents m (window v (store.read m v.array)))

    abbrev pub SliceWithin : Region → Memory Meta Other → Option Slice → Type 0
    SliceWithin R m none = Unit
    SliceWithin R m (some v) = R v.array × each.Within R m (window v (store.read m v.array))

    -- A nil slice reads as `none`.
    abbrev pub slice : Shape (Memory Meta Other) (Option Slice) (Option (List C))
    slice = record { contents = at_slice; Within = SliceWithin }

    module _ (laws : IsStore store) where
      at_slice-Agree :
          IsShape s
          → {R : Region} {m m' : Memory Meta Other} → Agree R m m'
          → (v : Option Slice) → SliceWithin R m v
          → at_slice m' v ≡ at_slice m v
      at_slice-Agree i g none w = refl
      at_slice-Agree i g (some v) w =
          rw (laws.read-agree g v.array w.0) (ap some (each-contents-Agree i g _ w.1))

      SliceWithin-Agree :
          IsShape s
          → {R : Region} {m m' : Memory Meta Other} → Agree R m m'
          → (v : Option Slice) → SliceWithin R m v
          → SliceWithin R m' v
      SliceWithin-Agree i g none w = tt
      SliceWithin-Agree i g (some v) w =
          (w.0, rw (laws.read-agree g v.array w.0) (each-Within-Agree i g _ w.1))

      SliceWithin-sub :
          IsShape s
          → {R Q : Region} (m : Memory Meta Other) → ((a : ℕ) → R a → Q a)
          → (v : Option Slice) → SliceWithin R m v
          → SliceWithin Q m v
      SliceWithin-sub i m sub none w = tt
      SliceWithin-sub i m sub (some v) w = (sub v.array w.0, each-Within-sub i m sub _ w.1)

      module _ {f : A → Alloc (Memory Meta Other) A} (F : Copies s f) where
        -- The new slice shows the copied elements.
        shown :
            (m : Memory Meta Other) (v : Slice) (ys : List A) (m1 : Memory Meta Other)
            → length ys ≡ length (window v (store.read m v.array))
            → take v.len (drop 0 (store.read (store.alloc ys m1) (store.next m1))) ≡ ys
        shown m v ys m1 same_length = rw (laws.next-memory m1) (
            rw (laws.read-alloc ys m1) (
              take_all v.len ys (
                omega
                  (arith, same_length, length-take v.len (drop v.offset (store.read m v.array))))))

        copy_slice-DeepCopied :
            (m : Memory Meta Other) (v : Option Slice)
            → SliceWithin (below m.next) m v
            → DeepCopied slice m v (copy_slice store f v m)
        unfolding copy_slice
        copy_slice-DeepCopied m none live = record {
          grows = le_refl m.next;
          kept = Agree-refl m;
          same = refl;
          fresh = tt;
        }
        copy_slice-DeepCopied m (some v) live =
            let xs = window v (store.read m v.array) in
            let p = copy_each-DeepCopied F m xs live.1 in
            let ys = (copy_each f xs m).0 in
            let m1 = (copy_each f xs m).1 in
            let kept = laws.alloc-agree ys m1 in
            let more = laws.next-alloc ys m1 in
            let whole = shown m v ys m1 (length-copy_each f xs m) in
            record {
              grows = omega (arith, p.grows, more);
              kept = Agree-trans (λ a h. le_trans h p.grows) p.kept kept;
              same = rw whole (
                  ap some
                    (same-kept each (each-IsShape F.is_shape) m.next kept ys p.fresh ∙ p.same));
              fresh = (
                (
                  omega (arith, p.grows, laws.next-memory m1),
                  omega (arith, laws.next-memory m1, more),
                ),
                rw whole (
                    fresh-kept each (each-IsShape F.is_shape) m.next (omega (arith, more)) kept ys
                      p.fresh),
              );
            }

        pub slice-Copies : Copies slice (copy_slice store f)
        slice-Copies = record {
          is_shape = record {
            contents-agree = at_slice-Agree F.is_shape;
            Within-agree = SliceWithin-Agree F.is_shape;
            Within-sub = SliceWithin-sub F.is_shape _;
          };
          copied = copy_slice-DeepCopied;
        }
