-- ===== src/Ring/Search.antt =====
-- `sort.Search` finds the boundary of a monotone test.
use axis_chat_server.Prelude.{
  ℕ, zero, suc, ◌+◌, ◌-◌, ◌/◌, ◌≤◌, ◌<◌, ◌≡◌, Bool, Bool-cases, true, false, inl, inr, arith, ltb,
}
use axis_chat_server.Ring.{search_loop, search}

-- The boundary of a test below `n`.
pub record Boundary (n : ℕ) (f : ℕ → Bool) (r : ℕ) : Type 0 where
  pub within : r ≤ n
  pub below : (i : ℕ) → i < r → f i ≡ false
  pub from : (i : ℕ) → r ≤ i → i < n → f i ≡ true

module _ (n : ℕ) (f : ℕ → Bool) (mono : (i j : ℕ) → i ≤ j → j < n → f i ≡ true → f j ≡ true) where
  search_loop-Boundary :
      (fuel i j : ℕ)
      → i ≤ j
      → j ≤ n
      → j - i ≤ fuel
      → ((k : ℕ) → k < i → f k ≡ false)
      → ((k : ℕ) → j ≤ k → k < n → f k ≡ true)
      → Boundary n f (search_loop fuel f i j)
  unfolding search_loop
  search_loop-Boundary zero i j le top enough lo hi = record {
    within = omega arith;
    below = lo;
    from = λ k a b. hi k (omega arith) b;
  }
  search_loop-Boundary (suc fuel) i j le top enough lo hi = elim (Bool-cases (ltb i j)) [
    | inr over ↦
        rw over (record { within = omega arith; below = lo; from = λ k a b. hi k (ground arith) b })
    | inl open_ ↦ elim (Bool-cases (f ((i + j) / 2))) [
      | inl hit ↦
          let lt : i < j = ground arith in
          rw (open_, hit)
            (search_loop-Boundary fuel i ((i + j) / 2) (omega arith) (omega arith) (omega arith) lo
              (λ k a b. mono ((i + j) / 2) k a b hit))
      | inr miss ↦
          let lt : i < j = ground arith in
          rw (open_, miss)
            (search_loop-Boundary fuel ((i + j) / 2 + 1) j (omega arith) top (omega arith)
              (λ k a. elim (Bool-cases (f k)) [
                | inl yes_ ↦ ground (arith, mono k ((i + j) / 2))
                | inr no_ ↦ no_
              ])
              hi)
    ]
  ]

  -- `sort.Search` of a monotone test returns the test's boundary.
  pub search-Boundary : Boundary n f (search n f)
  unfolding search
  search-Boundary =
      search_loop-Boundary n 0 n (omega arith) (omega arith) (omega arith) (λ k a. elim a [ ])
        (λ k a b. absurd (omega arith))
