-- ===== src/Base/Results.antt =====
-- Fallible code: an error of the program, or a panic (a failed `unwrap`, an index out of range).
use mathlib.Core.Path.{◌≡◌, refl}
use mathlib.Core.Option.{Option, none, some}
use mathlib.Core.Bool.{Bool, true, false}

pub data Result (E A : Type 0) : Type 0 where
  ok : A → Result E A
  err : E → Result E A
  panic : Result E A

infixl 5 ◌>>=◌
abbrev pub ◌>>=◌ : {E A B : Type 0} → Result E A → (A → Result E B) → Result E B
ok a >>= f = f a
err e >>= f = err e
panic >>= f = panic

abbrev pub is_some {ℓ} : {A : Type ℓ} → Option A → Bool
is_some none = false
is_some (some a) = true

pub some_inj {ℓ} : {A : Type ℓ} {a b : A} → some a ≡ some b → a ≡ b
some_inj h = cc

pub is_some-some {ℓ} : {A : Type ℓ} (o : Option A) → is_some o ≡ true → (a : A) × (o ≡ some a)
is_some-some none h = absurd (cc h)
is_some-some (some a) h = (a, refl)

pub ok_inj : {E A : Type 0} {a b : A} → ◌≡◌ {A = Result E A} (ok a) (ok b) → a ≡ b
ok_inj h = cc

-- a chain that yields a value: its first step yields one too, and the rest goes on from there
pub ok-of_chain :
    {E A B : Type 0} (first : Result E A) (rest : A → Result E B) {value : B}
    → (first >>= rest) ≡ ok value
    → (x : A) × (first ≡ ok x) × (rest x ≡ ok value)
ok-of_chain (ok x) rest yields = (x, refl, yields)
ok-of_chain (err e) rest yields = absurd (cc yields)
ok-of_chain panic rest yields = absurd (cc yields)
