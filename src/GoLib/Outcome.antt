-- ===== src/GoLib/Outcome.antt =====
-- How a Go call ends: a result, a non-nil error, or a panic (nil dereference, slice bounds). A
-- call that returns only an `error` has the result `tt` where that is nil.
use vault_autounseal_operato.Prelude.{Bool, true, false, ◌≡◌, refl, arith}

pub data Outcome (E A : Type 0) : Type 0 where
  ok : A → Outcome E A
  err : E → Outcome E A
  panic : Outcome E A

-- `if err != nil { return err }` after each call.
infixl 5 ◌>>=◌ ◌>>◌
abbrev pub ◌>>=◌ : {E A B : Type 0} → Outcome E A → (A → Outcome E B) → Outcome E B
panic >>= next = panic
err e >>= next = err e
ok result >>= next = next result

abbrev pub ◌>>◌ : {E B : Type 0} → Outcome E (Unit {0}) → Outcome E B → Outcome E B
m >> k = m >>= λ _. k

-- `if bad { return e }`.
abbrev pub fail_if : {E : Type 0} → Bool → E → Outcome E (Unit {0})
fail_if true e = err e
fail_if false e = ok tt

-- `if err != nil { return f(err) }`.
abbrev pub map_err : {E A : Type 0} → (E → E) → Outcome E A → Outcome E A
map_err f (ok a) = ok a
map_err f (err e) = err (f e)
map_err f panic = panic

-- Inversion of a successful sequence.
pub >>=-eq-ok :
    {E A B : Type 0} {final : B} (call : Outcome E A) (next : A → Outcome E B)
    → (call >>= next) ≡ ok final
    → (result : A) × (call ≡ ok result) × (next result ≡ ok final)
>>=-eq-ok panic next ends = ground arith
>>=-eq-ok (err e) next ends = ground arith
>>=-eq-ok (ok result) next ends = (result, refl, ends)
