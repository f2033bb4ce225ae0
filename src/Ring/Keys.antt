-- ===== src/Ring/Keys.antt =====
-- The sorted keys of a ring, and the key that a hash goes to: the next one clockwise.
use axis_chat_server.Prelude.{
  ℕ, zero, suc, ◌+◌, ◌-◌, ◌^◌, ◌≤◌, ◌<◌, ◌≡◌, refl, Bool-cases, true, ◌||◌, inl, inr, List, [], ◌∷◌,
  arith, length, elem, leb, ◌==◌, if◌then◌else◌,
}
use axis_chat_server.Ring.{place, sort, search, key_at, ring_key}
use axis_chat_server.Ring.Search.{Boundary, search-Boundary}

abbrev pub AllGe : ℕ → List ℕ → Type 0
AllGe x [] = Unit
AllGe x (y ∷ ys) = (x ≤ y) × AllGe x ys

abbrev pub IsSorted : List ℕ → Type 0
IsSorted [] = Unit
IsSorted (x ∷ xs) = AllGe x xs × IsSorted xs

AllGe-place : (x y : ℕ) (xs : List ℕ) → x ≤ y → AllGe x xs → AllGe x (place y xs)
unfolding place
AllGe-place x y [] le all = (le, tt)
AllGe-place x y (z ∷ zs) le (here, later) = elim (Bool-cases (leb y z)) [
  | inl e ↦ rw e (le, (here, later))
  | inr e ↦ rw e (here, AllGe-place x y zs le later)
]

AllGe-trans : (x y : ℕ) (xs : List ℕ) → x ≤ y → AllGe y xs → AllGe x xs
AllGe-trans x y [] le all = tt
AllGe-trans x y (z ∷ zs) le (here, later) = (omega arith, AllGe-trans x y zs le later)

place-IsSorted : (x : ℕ) (xs : List ℕ) → IsSorted xs → IsSorted (place x xs)
unfolding place
place-IsSorted x [] s = (tt, tt)
place-IsSorted x (y ∷ ys) (all, s) = elim (Bool-cases (leb x y)) [
  | inl e ↦ let le : x ≤ y = ground arith in rw e ((le, AllGe-trans x y ys le all), (all, s))
  | inr e ↦ rw e (AllGe-place y x ys (ground arith) all, place-IsSorted x ys s)
]

pub sort-IsSorted : (xs : List ℕ) → IsSorted (sort xs)
unfolding sort
sort-IsSorted [] = tt
sort-IsSorted (x ∷ xs) = place-IsSorted x (sort xs) (sort-IsSorted xs)

elem-place : (a x : ℕ) (xs : List ℕ) → elem a (place x xs) ≡ ((x == a) || elem a xs)
unfolding place
elem-place a x [] = refl
elem-place a x (y ∷ ys) = ground (arith, elem-place a x ys)

-- Sorting keeps the keys.
pub elem-sort : (a : ℕ) (xs : List ℕ) → elem a (sort xs) ≡ elem a xs
unfolding sort
elem-sort a [] = refl
elem-sort a (x ∷ xs) = ground (arith, elem-place a x (sort xs), elem-sort a xs)

length-place : (x : ℕ) (xs : List ℕ) → length (place x xs) ≡ suc (length xs)
unfolding place
length-place x [] = refl
length-place x (y ∷ ys) = ground (arith, length-place x ys)

pub length-sort : (xs : List ℕ) → length (sort xs) ≡ length xs
unfolding sort
length-sort [] = refl
length-sort (x ∷ xs) = omega (arith, length-place x (sort xs), length-sort xs)

elem-key_at : (xs : List ℕ) (i : ℕ) → i < length xs → elem (key_at xs i) xs ≡ true
elem-key_at [] i h = absurd (omega arith)
elem-key_at (x ∷ xs) zero h = ground arith
elem-key_at (x ∷ xs) (suc i) h = ground (arith, elem-key_at xs i (omega arith))

AllGe-key_at : (x : ℕ) (xs : List ℕ) (i : ℕ) → AllGe x xs → i < length xs → x ≤ key_at xs i
AllGe-key_at x [] i all h = absurd (omega arith)
AllGe-key_at x (y ∷ ys) zero (here, later) h = here
AllGe-key_at x (y ∷ ys) (suc i) (here, later) h = AllGe-key_at x ys i later (omega arith)

key_at_mono :
    (xs : List ℕ) (i j : ℕ) → IsSorted xs → i ≤ j → j < length xs → key_at xs i ≤ key_at xs j
key_at_mono [] i j s le h = absurd (omega arith)
key_at_mono (x ∷ xs) zero zero s le h = omega arith
key_at_mono (x ∷ xs) zero (suc j) (all, s) le h = AllGe-key_at x xs j all (omega arith)
key_at_mono (x ∷ xs) (suc i) zero s le h = absurd (omega arith)
key_at_mono (x ∷ xs) (suc i) (suc j) (all, s) le h =
    key_at_mono xs i j s (omega arith) (omega arith)

index_of : (a : ℕ) (xs : List ℕ) → elem a xs ≡ true → (i : ℕ) × (i < length xs) × (key_at xs i ≡ a)
index_of a [] h = ground arith
index_of a (x ∷ xs) h = elim (Bool-cases (x == a)) [
  | inl e ↦ (0, omega arith, ground arith)
  | inr e ↦
      let rest : elem a xs ≡ true = ground arith in
      let (i, lt, at) = index_of a xs rest in (suc i, omega arith, at)
]

-- How far a key lies from a hash, clockwise on the ring of the 32-bit numbers.
abbrev pub clockwise : ℕ → ℕ → ℕ
clockwise h x = if leb h x then x - h else x + 2 ^ 32 - h

-- The key of the ring that comes first, clockwise from a hash.
pub record IsNext (h : ℕ) (keys : List ℕ) (m : ℕ) : Type 0 where
  pub member : elem m keys ≡ true
  pub nearest : (x : ℕ) → elem x keys ≡ true → clockwise h m ≤ clockwise h x

abbrev pub InRange : List ℕ → Type 0
InRange keys = (x : ℕ) → elem x keys ≡ true → x < 2 ^ 32

module _ (h : ℕ) (keys : List ℕ) (sorted : IsSorted keys) (range : InRange keys)
    (some_key : 0 < length keys) where
  found-IsNext :
      (r : ℕ)
      → Boundary (length keys) (λ i. leb h (key_at keys i)) r
      → IsNext h keys (key_at keys (if r == length keys then 0 else r))
  found-IsNext r b = elim (Bool-cases (r == length keys)) [
    | inl past ↦ rw past (record {
      member = elem-key_at keys 0 some_key;
      nearest = λ x i.
          let (k, lt, at) = index_of x keys i in
          ground (arith, b.below k, key_at_mono keys 0 k sorted, b.below 0, range x i);
    })
    | inr within ↦ rw within (
        let r_lt : r < length keys = ground (arith, b.within) in
        record {
          member = elem-key_at keys r r_lt;
          nearest = λ x i.
              let (k, lt, at) = index_of x keys i in
              ground (
                arith,
                b.below k,
                b.from r,
                key_at_mono keys r k sorted,
                range (key_at keys r) (elem-key_at keys r r_lt),
                range x i,
              );
        })
  ]

  -- On a sorted, non-empty ring the binary search and the wrap to the first key find the key that
  -- comes first clockwise.
  pub ring_key-IsNext : IsNext h keys (ring_key h keys)
  unfolding ring_key
  ring_key-IsNext = found-IsNext (search (length keys) (λ i. leb h (key_at keys i))) (
      search-Boundary (length keys) (λ i. leb h (key_at keys i))
        (λ i j le lt hit. ground (arith, key_at_mono keys i j sorted le lt)))

-- There is one such key.
pub IsNext-unique :
    (h : ℕ) (keys : List ℕ) (a b : ℕ)
    → h < 2 ^ 32
    → InRange keys
    → IsNext h keys a
    → IsNext h keys b
    → a ≡ b
IsNext-unique h keys a b small range na nb =
    ground
      (arith, na.nearest b nb.member, nb.nearest a na.member, range a na.member, range b nb.member)
