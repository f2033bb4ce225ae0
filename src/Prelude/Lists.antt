-- ===== src/Prelude/Lists.antt =====
-- Lists measured and indexed by native numbers, Go's byte strings, and maps with numeric keys.
use Prim.Native.Nat.{ℕ, zero, suc, ◌+◌, ◌<◌}
use mathlib.Core.Path.{◌≡◌, refl, ap, ◌∙◌}
use mathlib.Core.Logic.{inl, inr}
use mathlib.Core.Bool.{Bool, true, false, ◌&&◌, ◌||◌}
use mathlib.Core.List.{List, [], ◌∷◌, ◌++◌}
use mathlib.Core.Option.{Option, none, some}
use native.Mathlib.Omega.{arith}
use axis_chat_server.Prelude.Tests.{◌==◌, Bool-cases, if◌then◌else◌}

module _ {ℓ} {A : Type ℓ} where
  abbrev pub length : List A → ℕ
  length [] = 0
  length (x ∷ xs) = suc (length xs)

  abbrev pub get_elem? : List A → ℕ → Option A
  get_elem? [] i = none
  get_elem? (x ∷ xs) zero = some x
  get_elem? (x ∷ xs) (suc i) = get_elem? xs i

  abbrev pub take : ℕ → List A → List A
  take zero xs = []
  take (suc n) [] = []
  take (suc n) (x ∷ xs) = x ∷ take n xs

  abbrev pub drop : ℕ → List A → List A
  drop zero xs = xs
  drop (suc n) [] = []
  drop (suc n) (x ∷ xs) = drop n xs

  -- A write out of bounds changes nothing.
  abbrev pub set : List A → ℕ → A → List A
  set [] i v = []
  set (x ∷ xs) zero v = v ∷ xs
  set (x ∷ xs) (suc i) v = x ∷ set xs i v

  abbrev pub replicate : ℕ → A → List A
  replicate zero a = []
  replicate (suc n) a = a ∷ replicate n a

  abbrev pub is_some : Option A → Bool
  is_some none = false
  is_some (some a) = true

  abbrev pub get_or : A → Option A → A
  get_or d none = d
  get_or d (some a) = a

  pub get_elem?-some : (xs : List A) (i : ℕ) → i < length xs → (a : A) × (get_elem? xs i ≡ some a)
  get_elem?-some [] i h = absurd (omega arith)
  get_elem?-some (x ∷ xs) zero h = (x, refl)
  get_elem?-some (x ∷ xs) (suc i) h = get_elem?-some xs i (omega arith)

  pub length-set : (xs : List A) (i : ℕ) (a : A) → length (set xs i a) ≡ length xs
  length-set [] i a = refl
  length-set (x ∷ xs) zero a = refl
  length-set (x ∷ xs) (suc i) a = ap suc (length-set xs i a)

  pub length-replicate : (n : ℕ) (a : A) → length (replicate n a) ≡ n
  length-replicate zero a = refl
  length-replicate (suc n) a = ap suc (length-replicate n a)

  pub get_elem?-set_self :
      (xs : List A) (i : ℕ) (a b : A) → get_elem? xs i ≡ some b → get_elem? (set xs i a) i ≡ some a
  get_elem?-set_self [] i a b h = cc
  get_elem?-set_self (x ∷ xs) zero a b h = refl
  get_elem?-set_self (x ∷ xs) (suc i) a b h = get_elem?-set_self xs i a b h

  pub set-same : (xs : List A) (i : ℕ) (a : A) → get_elem? xs i ≡ some a → set xs i a ≡ xs
  set-same [] i a h = refl
  set-same (x ∷ xs) zero a h = cc
  set-same (x ∷ xs) (suc i) a h = ap (λ l. x ∷ l) (set-same xs i a h)

  pub length-append : (xs ys : List A) → length (xs ++ ys) ≡ length xs + length ys
  length-append [] ys = omega arith
  length-append (x ∷ xs) ys = omega (arith, length-append xs ys)

  pub replicate-add : (m n : ℕ) (a : A) → replicate m a ++ replicate n a ≡ replicate (m + n) a
  replicate-add zero n a = ap (λ k. replicate k a) (omega arith)
  replicate-add (suc m) n a =
      ap (λ l. a ∷ l) (replicate-add m n a)
      ∙ ap (λ k. replicate k a) (let e : suc (m + n) ≡ suc m + n = omega arith in e)

-- A Go string or byte slice is the list of its bytes.
abbrev pub Text : Type 0
Text = List ℕ

infix 50 ◌=text◌
abbrev pub ◌=text◌ : Text → Text → Bool
[] =text [] = true
[] =text (y ∷ ys) = false
(x ∷ xs) =text [] = false
(x ∷ xs) =text (y ∷ ys) = (x == y) && (xs =text ys)

pub =text_refl : (s : Text) → (s =text s) ≡ true
=text_refl [] = refl
=text_refl (x ∷ s) = ground (arith, =text_refl s)

pub eq_of_=text : (s t : Text) → (s =text t) ≡ true → s ≡ t
eq_of_=text [] [] h = refl
eq_of_=text [] (y ∷ ys) h = ground arith
eq_of_=text (x ∷ xs) [] h = ground arith
eq_of_=text (x ∷ xs) (y ∷ ys) h = ground (arith, eq_of_=text xs ys)

abbrev pub elem : ℕ → List ℕ → Bool
elem a [] = false
elem a (x ∷ xs) = (x == a) || elem a xs

pub elem-append : (a : ℕ) (xs ys : List ℕ) → elem a (xs ++ ys) ≡ (elem a xs || elem a ys)
elem-append a [] ys = refl
elem-append a (x ∷ xs) ys = ground (arith, elem-append a xs ys)

-- A Go map with integer keys: each key has one entry.
module _ {ℓ} {V : Type ℓ} where
  abbrev pub lookup : ℕ → List (ℕ × V) → Option V
  lookup k [] = none
  lookup k ((j, v) ∷ m) = if j == k then some v else lookup k m

  abbrev pub insert : ℕ → V → List (ℕ × V) → List (ℕ × V)
  insert k v [] = (k, v) ∷ []
  insert k v ((j, w) ∷ m) = if j == k then (k, v) ∷ m else (j, w) ∷ insert k v m

  abbrev pub delete : ℕ → List (ℕ × V) → List (ℕ × V)
  delete k [] = []
  delete k ((j, w) ∷ m) = let rest = delete k m in if j == k then rest else (j, w) ∷ rest

  -- No key has two entries.
  abbrev pub Unique : List (ℕ × V) → Type ℓ
  Unique [] = Unit
  Unique ((k, v) ∷ m) = (lookup k m ≡ none) × Unique m

  pub lookup-insert :
      (k j : ℕ) (v : V) (m : List (ℕ × V))
      → lookup j (insert k v m) ≡ (if k == j then some v else lookup j m)
  lookup-insert k j v [] = refl
  lookup-insert k j v ((i, w) ∷ m) = ground (arith, lookup-insert k j v m)

  pub length-insert :
      (k : ℕ) (v : V) (m : List (ℕ × V))
      → length (insert k v m) ≡ (if is_some (lookup k m) then length m else length m + 1)
  length-insert k v [] = omega arith
  length-insert k v ((i, w) ∷ m) = ground (arith, length-insert k v m)

  pub lookup-delete :
      (k j : ℕ) (m : List (ℕ × V)) → lookup j (delete k m) ≡ (if k == j then none else lookup j m)
  lookup-delete k j [] = ground arith
  lookup-delete k j ((i, w) ∷ m) = ground (arith, lookup-delete k j m)

  pub insert-Unique : (k : ℕ) (v : V) (m : List (ℕ × V)) → Unique m → Unique (insert k v m)
  insert-Unique k v [] u = (refl, tt)
  insert-Unique k v ((i, w) ∷ m) (fresh, u) = elim (Bool-cases (i == k)) [
    | inl hit ↦ rw hit (ground arith, u)
    | inr miss ↦ rw miss (ground (arith, lookup-insert k i v m), insert-Unique k v m u)
  ]

  pub delete-Unique : (k : ℕ) (m : List (ℕ × V)) → Unique m → Unique (delete k m)
  delete-Unique k [] u = tt
  delete-Unique k ((i, w) ∷ m) (fresh, u) = elim (Bool-cases (i == k)) [
    | inl hit ↦ rw hit (delete-Unique k m u)
    | inr miss ↦ rw miss (ground (arith, lookup-delete k i m), delete-Unique k m u)
  ]

  delete_fresh : (k : ℕ) (m : List (ℕ × V)) → lookup k m ≡ none → delete k m ≡ m
  delete_fresh k [] out = refl
  delete_fresh k ((i, w) ∷ m) out = elim (Bool-cases (i == k)) [
    | inl hit ↦ ground arith
    | inr miss ↦ rw (miss, delete_fresh k m (ground arith))
  ]

  pub length-delete :
      (k : ℕ) (m : List (ℕ × V))
      → Unique m
      → length (delete k m) + (if is_some (lookup k m) then 1 else 0) ≡ length m
  length-delete k [] u = refl
  length-delete k ((i, w) ∷ m) (fresh, u) = elim (Bool-cases (i == k)) [
    | inl hit ↦
        let e : i ≡ k = ground arith in rw (hit, delete_fresh k m (rw e at fresh)) (omega arith)
    | inr miss ↦ rw miss (omega (arith, length-delete k m u))
  ]
