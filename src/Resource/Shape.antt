-- ===== src/Resource/Shape.antt =====
-- What a deep copy is: it reads the same as its original, and shares no address with it. A shape says
-- for a type of stored values what they read as, and which addresses they reach.
pub mod Fields
pub mod Slices
use native.Mathlib.Nat.{le_trans, le_refl}
use vault_autounseal_operato.Prelude.{
  ℕ, ◌+◌, ◌≤◌, ◌<◌, ◌≡◌, refl, sym, ap, ◌∙◌, Option, none, some, List, [], ◌∷◌, map, All, arith,
}
use vault_autounseal_operato.Resource.Memory.{Memory, Store, Slice}
use vault_autounseal_operato.Resource.Memory.Laws.{
  Region, below, between, Agree, Agree-trans, Agree-on, Agree-refl, IsStore,
}
use vault_autounseal_operato.Resource.DeepCopy.{
  Alloc, pure, ◌>>=◌, window, copy_pointer, copy_slice, copy_each,
}

-- `contents m v` is what `v` reads as in the memory `m`, and `Within R m v` says that all addresses
-- which it reaches are in `R`.
pub record Shape (M V C : Type 0) : Type 1 where
  pub contents : M → V → C
  pub Within : Region → M → V → Type 0

module _ {Meta Other : Type 0} where
  -- Both depend only on the memory at the addresses that are reached.
  pub record IsShape {V C : Type 0} (s : Shape (Memory Meta Other) V C) : Type 1 where
    pub contents-agree :
        {R : Region} {m m' : Memory Meta Other}
        → Agree R m m'
        → (v : V) → s.Within R m v
        → s.contents m' v ≡ s.contents m v
    pub Within-agree :
        {R : Region} {m m' : Memory Meta Other}
        → Agree R m m'
        → (v : V) → s.Within R m v
        → s.Within R m' v
    pub Within-sub :
        {R Q : Region} {m : Memory Meta Other}
        → ((a : ℕ) → R a → Q a)
        → (v : V) → s.Within R m v
        → s.Within Q m v

  -- The value and the memory after a copy of `v`: nothing that was in use has changed, the copy reads
  -- the same, and it reaches only addresses that were not in use before.
  pub record DeepCopied {V C : Type 0} (s : Shape (Memory Meta Other) V C) (m : Memory Meta Other)
      (v : V) (out : V × Memory Meta Other) : Type 0 where
    pub grows : m.next ≤ out.1.next
    pub kept : Agree (below m.next) m out.1
    pub same : s.contents out.1 out.0 ≡ s.contents m v
    pub fresh : s.Within (between m.next out.1.next) out.1 out.0

  -- The values that a memory holds: they reach only addresses in use.
  abbrev pub Live : {V C : Type 0} → Shape (Memory Meta Other) V C → Memory Meta Other → V → Type 0
  Live s m v = s.Within (below m.next) m v

  -- Each copy of a live value is deep.
  pub record Copies {V C : Type 0} (s : Shape (Memory Meta Other) V C)
      (copy : V → Alloc (Memory Meta Other) V) : Type 1 where
    pub is_shape : IsShape s
    pub copied : (m : Memory Meta Other) (v : V) → Live s m v → DeepCopied s m v (copy v m)

  module _ {V C : Type 0} (s : Shape (Memory Meta Other) V C) (i : IsShape s)
      {m m' : Memory Meta Other} where
    -- A live value stays live, and a copy stays apart, in a later memory.
    Live-kept : m.next ≤ m'.next → Agree (below m.next) m m' → (v : V) → Live s m v → Live s m' v
    Live-kept grows kept v live =
        i.Within-sub (λ a h. le_trans h grows) v (i.Within-agree kept v live)

    fresh-kept :
        (n : ℕ)
        → m.next ≤ m'.next
        → Agree (below m.next) m m'
        → (v : V) → s.Within (between n m.next) m v
        → s.Within (between n m'.next) m' v
    fresh-kept n grows kept v fresh =
        i.Within-sub (λ a h. (h.0, le_trans h.1 grows)) v
          (i.Within-agree (Agree-on (λ a h. h.1) kept) v fresh)

    same-kept :
        (n : ℕ)
        → Agree (below m.next) m m'
        → (v : V) → s.Within (between n m.next) m v
        → s.contents m' v ≡ s.contents m v
    same-kept n kept v fresh = i.contents-agree (Agree-on (λ a h. h.1) kept) v fresh

  -- Values without references.
  abbrev pub flat : (V : Type 0) → Shape (Memory Meta Other) V V
  flat V = record { contents = λ m v. v; Within = λ R m v. Unit }

  pub flat-Copies :
      {V : Type 0} (copy : V → V) → ((v : V) → copy v ≡ v) → Copies (flat V) (λ v m. (copy v, m))
  flat-Copies copy copy_id = record {
    is_shape = record {
      contents-agree = λ g v w. refl;
      Within-agree = λ g v w. tt;
      Within-sub = λ sub v w. tt;
    };
    copied = λ m v live. record {
      grows = le_refl m.next;
      kept = Agree-refl m;
      same = copy_id v;
      fresh = tt;
    };
  }

  abbrev pub pair :
      {V W C D : Type 0}
      → Shape (Memory Meta Other) V C
      → Shape (Memory Meta Other) W D
      → Shape (Memory Meta Other) (V × W) (C × D)
  pair s t = record {
    contents = λ m v. (s.contents m v.0, t.contents m v.1);
    Within = λ R m v. s.Within R m v.0 × t.Within R m v.1;
  }

  -- One copy after the other.
  pub pair-DeepCopied :
      {V W C D : Type 0} {s : Shape (Memory Meta Other) V C} {t : Shape (Memory Meta Other) W D}
      {m : Memory Meta Other} {v : V} {w : W} (out : V × Memory Meta Other)
      (out' : W × Memory Meta Other)
      → IsShape s
      → IsShape t
      → Live t m w
      → DeepCopied s m v out
      → (Live t out.1 w → DeepCopied t out.1 w out')
      → DeepCopied (pair s t) m (v, w) ((out.0, out'.0), out'.1)
  pair-DeepCopied {s} {t} {m} {v} {w} out out' i j live p next =
      let q = next (Live-kept t j p.grows p.kept w live) in
      record {
        grows = le_trans p.grows q.grows;
        kept = Agree-trans (λ a h. le_trans h p.grows) p.kept q.kept;
        same = cc (
          same-kept s i m.next q.kept out.0 p.fresh,
          p.same,
          q.same,
          j.contents-agree p.kept w live,
        );
        fresh = (
          fresh-kept s i m.next q.grows q.kept out.0 p.fresh,
          j.Within-sub (λ a h. (le_trans p.grows h.0, h.1)) out'.0 q.fresh,
        );
      }

  pub pair-Copies :
      {V W C D : Type 0} {s : Shape (Memory Meta Other) V C} {t : Shape (Memory Meta Other) W D}
      {f : V → Alloc (Memory Meta Other) V} {g : W → Alloc (Memory Meta Other) W}
      → Copies s f
      → Copies t g
      → Copies (pair s t) (λ v. do a ← f v.0; b ← g v.1; pure (a, b))
  pair-Copies {f} {g} F G = record {
    is_shape = record {
      contents-agree =
          λ z v w. cc (F.is_shape.contents-agree z v.0 w.0, G.is_shape.contents-agree z v.1 w.1);
      Within-agree =
          λ z v w. (F.is_shape.Within-agree z v.0 w.0, G.is_shape.Within-agree z v.1 w.1);
      Within-sub =
          λ sub v w. (F.is_shape.Within-sub sub v.0 w.0, G.is_shape.Within-sub sub v.1 w.1);
    };
    copied = λ m v live.
        pair-DeepCopied (f v.0 m) (g v.1 (f v.0 m).1) F.is_shape G.is_shape live.1
          (F.copied m v.0 live.0) (λ still. G.copied (f v.0 m).1 v.1 still);
  }
