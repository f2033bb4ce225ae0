-- ===== src/Prelude/TextMap.antt =====
-- A Go map with string keys, as the list of its entries in the order of their insertion.
use axis_chat_server.Prelude.Lists.{Text, ◌=text◌, =text_refl, eq_of_=text, is_some}
use axis_chat_server.Prelude.Tests.{Bool-cases, if◌then◌else◌}
use mathlib.Core.Path.{◌≡◌, refl, ap, sym, ◌∙◌}
use mathlib.Core.Logic.{inl, inr}
use mathlib.Core.Bool.{Bool, true, false}
use mathlib.Core.Option.{Option, none, some}
use mathlib.Core.List.{List, [], ◌∷◌}

-- A key that differs from another differs from what that equals.
pub =text_apart : (i j k : Text) → (i =text k) ≡ false → (i =text j) ≡ true → (k =text j) ≡ false
=text_apart i j k miss here = elim (Bool-cases (k =text j)) [
  | inr other ↦ other
  | inl same ↦
      let e : k ≡ i = eq_of_=text k j same ∙ sym (eq_of_=text i j here) in
      let bad : true ≡ false = sym (=text_refl i) ∙ ap (λ x. i =text x) (sym e) ∙ miss in absurd cc
]

module _ {ℓ} {V : Type ℓ} where
  abbrev pub lookup : Text → List (Text × V) → Option V
  lookup k [] = none
  lookup k ((j, v) ∷ m) = if j =text k then some v else lookup k m

  abbrev pub insert : Text → V → List (Text × V) → List (Text × V)
  insert k v [] = (k, v) ∷ []
  insert k v ((j, w) ∷ m) = if j =text k then (k, v) ∷ m else (j, w) ∷ insert k v m

  abbrev pub delete : Text → List (Text × V) → List (Text × V)
  delete k [] = []
  delete k ((j, w) ∷ m) = let rest = delete k m in if j =text k then rest else (j, w) ∷ rest

  abbrev pub has_key : Text → List (Text × V) → Bool
  has_key k m = is_some (lookup k m)

  pub lookup-insert :
      (k j : Text) (v : V) (m : List (Text × V))
      → lookup j (insert k v m) ≡ (if k =text j then some v else lookup j m)
  lookup-insert k j v [] = refl
  lookup-insert k j v ((i, w) ∷ m) = elim (Bool-cases (i =text k)) [
    | inl hit ↦ elim (Bool-cases (k =text j)) [
      | inl same ↦ rw (hit, same) refl
      | inr apart ↦ rw (hit, eq_of_=text i k hit, apart) refl
    ]
    | inr miss ↦ elim (Bool-cases (i =text j)) [
      | inr other ↦ rw (miss, other) (lookup-insert k j v m)
      | inl here ↦ rw (miss, here, =text_apart i j k miss here) refl
    ]
  ]

  pub lookup-delete :
      (k j : Text) (m : List (Text × V))
      → lookup j (delete k m) ≡ (if k =text j then none else lookup j m)
  lookup-delete k j [] = elim (Bool-cases (k =text j)) [
    | inl same ↦ rw same refl
    | inr apart ↦ rw apart refl
  ]
  lookup-delete k j ((i, w) ∷ m) = elim (Bool-cases (i =text k)) [
    | inl hit ↦ elim (Bool-cases (k =text j)) [
      | inl same ↦ rw (hit, same) (lookup-delete k j m ∙ rw same refl)
      | inr apart ↦ rw (hit, eq_of_=text i k hit, apart) (lookup-delete k j m ∙ rw apart refl)
    ]
    | inr miss ↦ elim (Bool-cases (i =text j)) [
      | inr other ↦ rw (miss, other) (lookup-delete k j m)
      | inl here ↦ rw (miss, here, =text_apart i j k miss here) refl
    ]
  ]

  -- No key has two entries.
  abbrev pub Unique : List (Text × V) → Type ℓ
  Unique [] = Unit
  Unique ((k, v) ∷ m) = (lookup k m ≡ none) × Unique m

  pub insert-Unique : (k : Text) (v : V) (m : List (Text × V)) → Unique m → Unique (insert k v m)
  insert-Unique k v [] u = (refl, tt)
  insert-Unique k v ((i, w) ∷ m) (fresh, u) = elim (Bool-cases (i =text k)) [
    | inl hit ↦ rw hit (ap (λ t. lookup t m) (sym (eq_of_=text i k hit)) ∙ fresh, u)
    | inr miss ↦ rw miss (
      lookup-insert k i v m ∙ rw (=text_apart i i k miss (=text_refl i)) fresh,
      insert-Unique k v m u,
    )
  ]

  pub delete-Unique : (k : Text) (m : List (Text × V)) → Unique m → Unique (delete k m)
  delete-Unique k [] u = tt
  delete-Unique k ((i, w) ∷ m) (fresh, u) = elim (Bool-cases (i =text k)) [
    | inl hit ↦ rw hit (delete-Unique k m u)
    | inr miss ↦ rw miss (
      lookup-delete k i m ∙ rw (=text_apart i i k miss (=text_refl i)) fresh,
      delete-Unique k m u,
    )
  ]
