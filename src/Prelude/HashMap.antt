-- ===== src/Prelude/HashMap.antt =====
-- `std::collections::HashMap` with numbers for keys. The order of the entries stands for the order
-- of iteration, which the standard library leaves open.
use Prim.Native.Nat.{ℕ}
use mathlib.Core.Path.{◌≡◌, refl}
use mathlib.Core.Bool.{Bool, true, false}
use mathlib.Core.Option.{Option, none, some}
use mathlib.Core.List.{List, [], ◌∷◌}
use native.Mathlib.Omega.{arith}
use mathlib.Core.Logic.{inl, inr}
use rem_poc.Prelude.Logic.{◌==◌, if◌then◌else◌, Bool-cases}

abbrev pub HashMap {ℓ} : Type ℓ → Type ℓ
HashMap V = List (ℕ × V)

module _ {ℓ} {V : Type ℓ} where
  unfoldable pub get : HashMap V → ℕ → Option V
  get [] k = none
  get ((j, v) ∷ m) k = if j == k then some v else get m k

  unfoldable pub contains_key : HashMap V → ℕ → Bool
  contains_key m k = elim (get m k) [ none ↦ false | some v ↦ true ]

  unfoldable pub insert : HashMap V → ℕ → V → HashMap V
  insert [] k v = (k, v) ∷ []
  insert ((j, w) ∷ m) k v = if j == k then (k, v) ∷ m else (j, w) ∷ insert m k v

  pub get-insert :
      (m : HashMap V) (k j : ℕ) (v : V)
      → get (insert m k v) j ≡ (if k == j then some v else get m j)
  unfolding get insert
  get-insert [] k j v = refl
  get-insert ((i, w) ∷ m) k j v = ground (arith, get-insert m k j v)

  pub get-insert_self : (m : HashMap V) (k : ℕ) (v : V) → get (insert m k v) k ≡ some v
  get-insert_self m k v = ground (arith, get-insert m k k v)

  -- No key has two entries.
  abbrev pub Distinct : HashMap V → Type ℓ
  Distinct [] = Unit
  Distinct ((k, v) ∷ m) = (get m k ≡ none) × Distinct m

  pub insert-Distinct : (m : HashMap V) (k : ℕ) (v : V) → Distinct m → Distinct (insert m k v)
  unfolding get insert
  insert-Distinct [] k v h = (refl, tt)
  insert-Distinct ((j, w) ∷ m) k v h = ground (arith, insert-Distinct m k v, get-insert m k j v)

-- The first key, in the order of iteration, that maps to `n`.
unfoldable pub find_key : HashMap ℕ → ℕ → Option ℕ
find_key [] n = none
find_key ((k, v) ∷ m) n = if n == v then some k else find_key m n

pub find_key-get : (m : HashMap ℕ) (n k : ℕ) → Distinct m → find_key m n ≡ some k → get m k ≡ some n
unfolding find_key get
find_key-get [] n k d e = cc
find_key-get ((j, v) ∷ m) n k d e = ground (arith, find_key-get m n k d.1)

pub get-find_key : (m : HashMap ℕ) (n k : ℕ) → get m k ≡ some n → (j : ℕ) × (find_key m n ≡ some j)
unfolding find_key get
get-find_key [] n k e = cc
get-find_key ((j, v) ∷ m) n k e = elim (Bool-cases (n == v)) [
  | inl hit ↦ (j, rw hit)
  | inr miss ↦ let (i, p) = get-find_key m n k (ground arith) in (i, ground arith)
]
