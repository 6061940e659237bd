-- ===== src/Prelude/Lists.antt =====
-- Lists measured and indexed by native numbers, under the library's names.
use Prim.Native.Nat.{ℕ, zero, suc, ◌+◌, ◌<◌, ◌≤◌}
use mathlib.Core.Path.{◌≡◌, refl, ap}
use mathlib.Core.Logic.{◌≢◌, ◌⊎◌, inr}
use mathlib.Core.Bool.{Bool, true, false}
use mathlib.Core.List.{List, [], ◌∷◌, ◌++◌}
use mathlib.Core.Option.{Option, none, some}
use native.Mathlib.Omega.{arith}
use tda596_distributed_syste.Prelude.Tests.{if◌then◌else◌}

module _ {ℓ} {A : Type ℓ} where
  abbrev pub length : List A → ℕ
  length [] = 0
  length (x ∷ xs) = suc (length xs)

  abbrev pub get_elem? : List A → ℕ → Option A
  get_elem? [] i = none
  get_elem? (x ∷ xs) zero = some x
  get_elem? (x ∷ xs) (suc i) = get_elem? xs i

  -- A write out of bounds changes nothing.
  abbrev pub set : List A → ℕ → A → List A
  set [] i v = []
  set (x ∷ xs) zero v = v ∷ xs
  set (x ∷ xs) (suc i) v = x ∷ set xs i v

  abbrev pub remove_at : List A → ℕ → List A
  remove_at [] i = []
  remove_at (x ∷ xs) zero = xs
  remove_at (x ∷ xs) (suc i) = x ∷ remove_at xs i

  -- The number of elements that pass a test.
  abbrev pub count_if : (A → Bool) → List A → ℕ
  count_if p [] = 0
  count_if p (x ∷ xs) = (if p x then 1 else 0) + count_if p xs

  abbrev pub all : (A → Bool) → List A → Bool
  all p [] = true
  all p (x ∷ xs) = if p x then all p xs else false

module _ {ℓ} {A : Type ℓ} where
  pub length-append : (xs ys : List A) → length (xs ++ ys) ≡ length xs + length ys
  length-append [] ys = omega arith
  length-append (x ∷ xs) ys = omega (arith, length-append xs ys)

  pub length-set : (xs : List A) (i : ℕ) (v : A) → length (set xs i v) ≡ length xs
  length-set [] i v = refl
  length-set (x ∷ xs) zero v = refl
  length-set (x ∷ xs) (suc i) v = ap suc (length-set xs i v)

  pub get_elem?-set_self :
      (xs : List A) (i : ℕ) (v : A) → i < length xs → get_elem? (set xs i v) i ≡ some v
  get_elem?-set_self [] i v h = elim h [ ]
  get_elem?-set_self (x ∷ xs) zero v h = refl
  get_elem?-set_self (x ∷ xs) (suc i) v h = get_elem?-set_self xs i v (omega arith)

  pub get_elem?-set_ne :
      (xs : List A) (i j : ℕ) (v : A) → i ≢ j → get_elem? (set xs i v) j ≡ get_elem? xs j
  get_elem?-set_ne [] i j v h = refl
  get_elem?-set_ne (x ∷ xs) zero zero v h = absurd (h refl)
  get_elem?-set_ne (x ∷ xs) zero (suc j) v h = refl
  get_elem?-set_ne (x ∷ xs) (suc i) zero v h = refl
  get_elem?-set_ne (x ∷ xs) (suc i) (suc j) v h = get_elem?-set_ne xs i j v (λ e. h (ap suc e))

  pub lt-length_of_get_elem? :
      (xs : List A) (i : ℕ) (x : A) → get_elem? xs i ≡ some x → i < length xs
  lt-length_of_get_elem? [] i x e = ground arith
  lt-length_of_get_elem? (y ∷ xs) zero x e = omega arith
  lt-length_of_get_elem? (y ∷ xs) (suc i) x e = omega (arith, lt-length_of_get_elem? xs i x e)

  pub get_elem?_of_lt : (xs : List A) (i : ℕ) → i < length xs → (x : A) × (get_elem? xs i ≡ some x)
  get_elem?_of_lt [] i h = elim h [ ]
  get_elem?_of_lt (x ∷ xs) zero h = (x, refl)
  get_elem?_of_lt (x ∷ xs) (suc i) h = get_elem?_of_lt xs i (omega arith)

  -- What a write does to a count: the old element's share goes, the new one's comes.
  pub count_if-set :
      (p : A → Bool) (xs : List A) (i : ℕ) (x v : A)
      → get_elem? xs i ≡ some x
      → count_if p (set xs i v) + (if p x then 1 else 0) ≡ count_if p xs + (if p v then 1 else 0)
  count_if-set p [] i x v e = ground arith
  count_if-set p (y ∷ xs) zero x v e = ground arith
  count_if-set p (y ∷ xs) (suc i) x v e = omega (arith, count_if-set p xs i x v e)

  pub count_if-remove_at :
      (p : A → Bool) (xs : List A) (i : ℕ) (x : A)
      → get_elem? xs i ≡ some x
      → count_if p (remove_at xs i) + (if p x then 1 else 0) ≡ count_if p xs
  count_if-remove_at p [] i x e = ground arith
  count_if-remove_at p (y ∷ xs) zero x e = ground arith
  count_if-remove_at p (y ∷ xs) (suc i) x e = omega (arith, count_if-remove_at p xs i x e)

  pub count_if-le : (p : A → Bool) (xs : List A) → count_if p xs ≤ length xs
  count_if-le p [] = omega arith
  count_if-le p (x ∷ xs) = ground (arith, count_if-le p xs)

  -- A count that reaches the length is a count of all.
  pub all_of_count_if :
      (p : A → Bool) (xs : List A)
      → count_if p xs ≡ length xs
      → (i : ℕ) (x : A) → get_elem? xs i ≡ some x
      → p x ≡ true
  all_of_count_if p [] h i x e = ground arith
  all_of_count_if p (y ∷ xs) h zero x e = ground (arith, count_if-le p xs)
  all_of_count_if p (y ∷ xs) h (suc i) x e =
      all_of_count_if p xs (ground (arith, count_if-le p xs)) i x e

  pub count_if_of_all :
      (p : A → Bool) (xs : List A)
      → ((i : ℕ) (x : A) → get_elem? xs i ≡ some x → p x ≡ true)
      → count_if p xs ≡ length xs
  count_if_of_all p [] h = refl
  count_if_of_all p (x ∷ xs) h =
      ground (arith, h zero x refl, count_if_of_all p xs (λ i y e. h (suc i) y e))

  pub count_if_pos :
      (p : A → Bool) (xs : List A) (i : ℕ) (x : A)
      → get_elem? xs i ≡ some x
      → p x ≡ true
      → 0 < count_if p xs
  count_if_pos p [] i x e h = ground arith
  count_if_pos p (y ∷ xs) zero x e h = ground arith
  count_if_pos p (y ∷ xs) (suc i) x e h = omega (arith, count_if_pos p xs i x e h)

  pub set-set : (xs : List A) (i : ℕ) (v w : A) → set (set xs i v) i w ≡ set xs i w
  set-set [] i v w = refl
  set-set (x ∷ xs) zero v w = refl
  set-set (x ∷ xs) (suc i) v w = ap (◌∷◌ x) (set-set xs i v w)

  -- What a write leaves at each position.
  pub get_elem?-set_cases :
      (xs : List A) (i : ℕ) (v : A) (j : ℕ) (y : A)
      → get_elem? (set xs i v) j ≡ some y
      → (y ≡ v) ⊎ (get_elem? xs j ≡ some y)
  get_elem?-set_cases [] i v j y e = inr e
  get_elem?-set_cases (x ∷ xs) zero v zero y e = ground arith
  get_elem?-set_cases (x ∷ xs) zero v (suc j) y e = inr e
  get_elem?-set_cases (x ∷ xs) (suc i) v zero y e = inr e
  get_elem?-set_cases (x ∷ xs) (suc i) v (suc j) y e = get_elem?-set_cases xs i v j y e

  abbrev pub replicate : ℕ → A → List A
  replicate zero a = []
  replicate (suc n) a = a ∷ replicate n a

  -- The same with the position.
  pub get_elem?-set_at :
      (xs : List A) (i : ℕ) (v : A) (j : ℕ) (y : A)
      → get_elem? (set xs i v) j ≡ some y
      → ((i ≡ j) × (y ≡ v)) ⊎ (get_elem? xs j ≡ some y)
  get_elem?-set_at [] i v j y e = inr e
  get_elem?-set_at (x ∷ xs) zero v zero y e = ground arith
  get_elem?-set_at (x ∷ xs) zero v (suc j) y e = inr e
  get_elem?-set_at (x ∷ xs) (suc i) v zero y e = inr e
  get_elem?-set_at (x ∷ xs) (suc i) v (suc j) y e = ground (arith, get_elem?-set_at xs i v j y e)

pub append_assoc {ℓ} : {A : Type ℓ} (xs ys zs : List A) → (xs ++ ys) ++ zs ≡ xs ++ (ys ++ zs)
append_assoc [] ys zs = refl
append_assoc (x ∷ xs) ys zs = ap (◌∷◌ x) (append_assoc xs ys zs)

pub append-[] {ℓ} : {A : Type ℓ} (xs : List A) → xs ++ [] ≡ xs
append-[] [] = refl
append-[] (x ∷ xs) = ap (◌∷◌ x) (append-[] xs)

pub length-remove_at {ℓ} :
    {A : Type ℓ} (xs : List A) (k : ℕ) → k < length xs → suc (length (remove_at xs k)) ≡ length xs
length-remove_at [] k h = absurd (omega arith)
length-remove_at (x ∷ xs) zero h = refl
length-remove_at (x ∷ xs) (suc k) h = ap suc (length-remove_at xs k (omega arith))

pub count_if-append {ℓ} :
    {A : Type ℓ} (p : A → Bool) (xs ys : List A)
    → count_if p (xs ++ ys) ≡ count_if p xs + count_if p ys
count_if-append p [] ys = omega arith
count_if-append p (x ∷ xs) ys = omega (arith, count_if-append p xs ys)
