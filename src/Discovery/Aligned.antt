-- ===== src/Discovery/Aligned.antt =====
-- The two lists of a server id stay aligned, and so stand for a map from keys to instances.
use axis_chat_server.Prelude.{
  ℕ, zero, suc, ◌+◌, ◌<◌, ◌≡◌, refl, Bool, Bool-cases, true, false, inl, inr, Option, Option-cases,
  none, some, is_some, List, [], ◌∷◌, ◌++◌, arith, Text, ◌=text◌, =text_refl, eq_of_=text, length,
  sym, ◌∙◌, subst, if◌then◌else◌,
}
use axis_chat_server.Discovery.{index_in_slice, cut}

-- The instance that stands at the place of a key.
abbrev pub assoc : {I : Type 0} → Text → List Text → List I → Option I
assoc key [] ins = none
assoc key (k ∷ keys) [] = none
assoc key (k ∷ keys) (i ∷ ins) = if k =text key then some i else assoc key keys ins

abbrev pub has : Text → List Text → Bool
has key [] = false
has key (k ∷ keys) = if k =text key then true else has key keys

abbrev pub Distinct : List Text → Type 0
Distinct [] = Unit
Distinct (k ∷ keys) = (has k keys ≡ false) × Distinct keys

pub index-has : (key : Text) (keys : List Text) → is_some (index_in_slice key keys) ≡ has key keys
unfolding index_in_slice
index-has key [] = refl
index-has key (k ∷ keys) = ground (arith, index-has key keys)

pub index-lt :
    (key : Text) (keys : List Text) (idx : ℕ)
    → index_in_slice key keys ≡ some idx
    → idx < length keys
unfolding index_in_slice
index-lt key [] idx e = cc
index-lt key (k ∷ keys) idx e = elim (Option-cases (index_in_slice key keys)) [
  | inl missing ↦ ground arith
  | inr (i, found) ↦ ground (arith, index-lt key keys i)
]

has-append :
    (key new : Text) (keys : List Text)
    → has key (keys ++ new ∷ []) ≡ (if has key keys then true else new =text key)
has-append key new [] = ground arith
has-append key new (k ∷ keys) = ground (arith, has-append key new keys)

pub Distinct-append :
    (new : Text) (keys : List Text)
    → has new keys ≡ false
    → Distinct keys
    → Distinct (keys ++ new ∷ [])
Distinct-append new [] out d = (refl, tt)
Distinct-append new (k ∷ keys) out (fresh, d) = elim (Bool-cases (k =text new)) [
  | inl same ↦ ground arith
  | inr other ↦ (
    ground (arith, has-append k new keys, eq_of_=text new k, =text_refl k),
    Distinct-append new keys (ground arith) d,
  )
]

has-cut :
    (key : Text) (keys : List Text) (idx : ℕ)
    → has key keys ≡ false
    → has key (cut idx keys) ≡ false
has-cut key [] zero out = refl
has-cut key [] (suc idx) out = refl
has-cut key (k ∷ keys) zero out = ground arith
has-cut key (k ∷ keys) (suc idx) out = ground (arith, has-cut key keys idx)

pub Distinct-cut : (keys : List Text) (idx : ℕ) → Distinct keys → Distinct (cut idx keys)
Distinct-cut [] zero d = tt
Distinct-cut [] (suc idx) d = tt
Distinct-cut (k ∷ keys) zero (fresh, d) = d
Distinct-cut (k ∷ keys) (suc idx) (fresh, d) = (has-cut k keys idx fresh, Distinct-cut keys idx d)

pub length-cut {ℓ} :
    {A : Type ℓ} (l : List A) (idx : ℕ) → idx < length l → length (cut idx l) + 1 ≡ length l
length-cut [] idx h = absurd (omega arith)
length-cut (x ∷ l) zero h = omega arith
length-cut (x ∷ l) (suc idx) h = omega (arith, length-cut l idx (omega arith))

index-tail :
    (gone k : Text) (keys : List Text) (idx : ℕ)
    → (k =text gone) ≡ false
    → index_in_slice gone (k ∷ keys) ≡ some (suc idx)
    → index_in_slice gone keys ≡ some idx
unfolding index_in_slice
index-tail gone k keys idx miss e = elim (Option-cases (index_in_slice gone keys)) [
  | inl missing ↦ ground arith
  | inr (j, found) ↦ ground arith
]

other_key :
    (gone k key : Text) → (k =text gone) ≡ false → (k =text key) ≡ true → (gone =text key) ≡ false
other_key gone k key miss same = elim (Bool-cases (gone =text key)) [
  | inr other ↦ other
  | inl hit ↦
      let g : gone ≡ k = eq_of_=text gone key hit ∙ sym (eq_of_=text k key same) in
      absurd (ground (arith, =text_refl k, subst (λ t. (k =text t) ≡ false) g miss))
]

module _ {I : Type 0} where
  pub assoc-append :
      (key new : Text) (keys : List Text) (ins : List I) (v : I)
      → length keys ≡ length ins
      → assoc key (keys ++ new ∷ []) (ins ++ v ∷ [])
        ≡ (if has key keys then assoc key keys ins else if new =text key then some v else none)
  assoc-append key new [] [] v e = refl
  assoc-append key new [] (i ∷ ins) v e = absurd (omega arith)
  assoc-append key new (k ∷ keys) [] v e = absurd (omega arith)
  assoc-append key new (k ∷ keys) (i ∷ ins) v e = ground (arith, assoc-append key new keys ins v)

  pub assoc-none :
      (key : Text) (keys : List Text) (ins : List I)
      → has key keys ≡ false
      → assoc key keys ins ≡ none
  assoc-none key [] ins e = refl
  assoc-none key (k ∷ keys) [] e = refl
  assoc-none key (k ∷ keys) (i ∷ ins) e = ground (arith, assoc-none key keys ins)

  pub assoc-cut :
      (key gone : Text) (keys : List Text) (ins : List I) (idx : ℕ)
      → Distinct keys
      → length keys ≡ length ins
      → index_in_slice gone keys ≡ some idx
      → assoc key (cut idx keys) (cut idx ins)
        ≡ (if gone =text key then none else assoc key keys ins)
  unfolding index_in_slice
  assoc-cut key gone [] ins idx d n e = cc
  assoc-cut key gone (k ∷ keys) [] idx d n e = absurd (omega arith)
  assoc-cut key gone (k ∷ keys) (i ∷ ins) zero (fresh, d) n e = elim (Bool-cases (k =text gone)) [
    | inl hit ↦ rw (sym (eq_of_=text k gone hit)) (elim (Bool-cases (k =text key)) [
      | inl same ↦
          rw same (
            assoc-none key keys ins
              (subst (λ t. has t keys ≡ false) (eq_of_=text k key same) fresh))
      | inr other ↦ rw other refl
    ])
    | inr miss ↦ absurd (ground arith)
  ]
  assoc-cut key gone (k ∷ keys) (i ∷ ins) (suc idx) (fresh, d) n e =
      elim (Bool-cases (k =text gone)) [
        | inl hit ↦ absurd (ground arith)
        | inr miss ↦
            let rest =
              assoc-cut key gone keys ins idx d (omega arith) (index-tail gone k keys idx miss e) in
            elim (Bool-cases (k =text key)) [
              | inl same ↦ rw (same, other_key gone k key miss same) refl
              | inr other ↦ rw other rest
            ]
      ]
