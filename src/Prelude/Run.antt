-- ===== src/Prelude/Run.antt =====
-- What a call comes to: a value, an error value, or a panic.
use mathlib.Core.Path.{◌≡◌, refl}
use mathlib.Core.Option.{Option, none, some}

pub data Run {ℓ κ} (E : Type κ) (A : Type ℓ) : Type (ℓ ⊔ κ) where
  ok : A → Run E A
  err : E → Run E A
  panic : Run E A

infixl 10 ◌>>=◌ ◌>>◌
abbrev pub ◌>>=◌ {ℓ κ μ} :
    {E : Type μ} {A : Type ℓ} {B : Type κ} → Run E A → (A → Run E B) → Run E B
ok a >>= f = f a
err e >>= f = err e
panic >>= f = panic

abbrev pub ◌>>◌ {ℓ κ μ} : {E : Type μ} {A : Type ℓ} {B : Type κ} → Run E A → Run E B → Run E B
m >> n = m >>= λ _. n

abbrev pub map_err {ℓ κ μ} : {E : Type κ} {F : Type μ} {A : Type ℓ} → (E → F) → Run E A → Run F A
map_err f (ok a) = ok a
map_err f (err e) = err (f e)
map_err f panic = panic

-- `unwrap` and `expect` of an option.
abbrev pub unwrap {ℓ κ} : {E : Type κ} {A : Type ℓ} → Option A → Run E A
unwrap none = panic
unwrap (some a) = ok a

-- `ok_or` of an option.
abbrev pub ok_or {ℓ κ} : {E : Type κ} {A : Type ℓ} → Option A → E → Run E A
ok_or none e = err e
ok_or (some a) e = ok a

-- The call comes to a value.
abbrev pub Returns {ℓ κ} : {E : Type κ} {A : Type ℓ} → Run E A → Type (ℓ ⊔ κ)
Returns {A} r = (a : A) × (r ≡ ok a)

pub Returns-bind {ℓ κ μ} :
    {E : Type μ} {A : Type ℓ} {B : Type κ} (m : Run E A) (f : A → Run E B)
    → Returns m
    → ((a : A) → m ≡ ok a → Returns (f a))
    → Returns (m >>= f)
Returns-bind (ok a) f (b, e) h = h a refl
Returns-bind (err e) f (b, p) h = cc
Returns-bind panic f (b, p) h = cc

pub >>=-ok {ℓ κ} : {E : Type κ} {A : Type ℓ} (m : Run E A) → (m >>= λ a. ok a) ≡ m
>>=-ok (ok a) = refl
>>=-ok (err e) = refl
>>=-ok panic = refl

-- What a call that comes to a value has gone through.
pub bind_returned {ℓ κ μ} :
    {E : Type μ} {A : Type ℓ} {B : Type κ} (m : Run E A) (f : A → Run E B) (b : B)
    → (m >>= f) ≡ ok b
    → (a : A) × (m ≡ ok a) × (f a ≡ ok b)
bind_returned (ok a) f b h = (a, refl, h)
bind_returned (err e) f b h = cc
bind_returned panic f b h = cc

-- A call comes to one value.
pub ok_unique {ℓ κ} :
    {E : Type κ} {A : Type ℓ} (r : Run E A) (a b : A) → r ≡ ok a → r ≡ ok b → a ≡ b
ok_unique r a b e f = cc

pub map_err-ok {ℓ κ μ} :
    {E : Type κ} {F : Type μ} {A : Type ℓ} (f : E → F) (r : Run E A) (a : A)
    → map_err f r ≡ ok a
    → r ≡ ok a
map_err-ok f (ok b) a h = cc
map_err-ok f (err e) a h = cc
map_err-ok f panic a h = cc
