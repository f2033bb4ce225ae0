-- ===== src/Prelude/Decimal.antt =====
-- `fmt.Sprintf("%d", n)` for n at least 0: the decimal digits, as bytes.
use Prim.Native.Nat.{ℕ, zero, suc, ◌+◌, ◌*◌, ◌-◌, ◌/◌, ◌%◌, ◌<◌, ◌≤◌}
use mathlib.Core.Path.{◌≡◌, refl, ap, sym, ◌∙◌}
use mathlib.Core.Logic.{inl, inr}
use mathlib.Core.Bool.{true, false}
use mathlib.Core.Option.{some}
use mathlib.Core.List.{[], ◌∷◌}
use native.Mathlib.Omega.{arith}
use axis_chat_server.Prelude.Tests.{ltb, leb, ◌==◌, Bool-cases, if◌then◌else◌}
use axis_chat_server.Prelude.Lists.{Text, ◌=text◌, eq_of_=text}
use axis_chat_server.Prelude.Int.{pos}
use axis_chat_server.Prelude.Atoi.{digits_of, atoi, split}

digits : ℕ → ℕ → Text → Text
digits zero n later = later
digits (suc fuel) n later =
    let rest = digits fuel (n / 10) ((48 + n % 10) ∷ later) in
    if ltb n 10 then (48 + n) ∷ later else rest

-- A number has fewer digits than it has units.
unfoldable pub decimal : ℕ → Text
unfolding digits
decimal n = digits (n + 1) n []

-- the number that digits stand for, after the number that the digits before them stand for
abbrev number_of : ℕ → Text → ℕ
number_of n [] = n
number_of n (b ∷ bs) = number_of (n * 10 + (b - 48)) bs

number_of-digits :
    (fuel n : ℕ) (later : Text) → n < fuel → number_of 0 (digits fuel n later) ≡ number_of n later
unfolding digits
number_of-digits zero n later h = absurd (omega arith)
number_of-digits (suc fuel) n later h = elim (Bool-cases (ltb n 10)) [
  | inl low ↦ rw low (ap (λ i. number_of i later) (omega arith))
  | inr high ↦ rw high (
      number_of-digits fuel (n / 10) ((48 + n % 10) ∷ later) (ground arith)
      ∙ ap (λ i. number_of i later) (omega arith))
]

decimal-inj : (m n : ℕ) → decimal m ≡ decimal n → m ≡ n
unfolding decimal
decimal-inj m n e =
    sym (number_of-digits (m + 1) m [] (omega arith))
    ∙ ap (number_of 0) e
    ∙ number_of-digits (n + 1) n [] (omega arith)

-- Different numbers have different texts.
pub decimal-apart : (m n : ℕ) → (m == n) ≡ false → (decimal m =text decimal n) ≡ false
decimal-apart m n apart = elim (Bool-cases (decimal m =text decimal n)) [
  | inr other ↦ other
  | inl same ↦ absurd (ground (arith, decimal-inj m n (eq_of_=text (decimal m) (decimal n) same)))
]

abbrev AreDigits : Text → Type 0
AreDigits [] = Unit
AreDigits (b ∷ bs) = (48 ≤ b) × (b ≤ 57) × AreDigits bs

digits-AreDigits :
    (fuel n : ℕ) (later : Text) → n < fuel → AreDigits later → AreDigits (digits fuel n later)
unfolding digits
digits-AreDigits zero n later h d = d
digits-AreDigits (suc fuel) n later h d = elim (Bool-cases (ltb n 10)) [
  | inl low ↦ rw low (omega arith, ground arith, d)
  | inr high ↦ rw high (
      digits-AreDigits fuel (n / 10) ((48 + n % 10) ∷ later) (ground arith)
        (omega arith, omega arith, d))
]

-- reading one digit
digits_of-digit :
    (n d : ℕ) (later : Text)
    → d < 10
    → digits_of n ((48 + d) ∷ later) ≡ digits_of (n * 10 + d) later
digits_of-digit n d later h =
    let lower : leb 48 (48 + d) ≡ true = ground arith in
    let upper : leb (48 + d) 57 ≡ true = ground arith in
    rw (lower, upper) (ap (λ i. digits_of i later) (omega arith))

digits_of-digits :
    (fuel n : ℕ) (later : Text) → n < fuel → digits_of 0 (digits fuel n later) ≡ digits_of n later
unfolding digits
digits_of-digits zero n later h = absurd (omega arith)
digits_of-digits (suc fuel) n later h = elim (Bool-cases (ltb n 10)) [
  | inl low ↦
      rw low (digits_of-digit 0 n later (ground arith) ∙ ap (λ i. digits_of i later) (omega arith))
  | inr high ↦ rw high (
      digits_of-digits fuel (n / 10) ((48 + n % 10) ∷ later) (ground arith)
      ∙ digits_of-digit (n / 10) (n % 10) later (omega arith)
      ∙ ap (λ i. digits_of i later) (omega arith))
]

atoi-digits : (t : Text) (n : ℕ) → AreDigits t → digits_of 0 t ≡ some n → atoi t ≡ pos n
unfolding atoi
atoi-digits [] n d e = cc
atoi-digits (b ∷ bs) n d e =
    let unsigned : (b == b'-') ≡ false = ground arith in rw (unsigned, e) refl

-- The number that a number's text stands for.
pub atoi-decimal : (n : ℕ) → atoi (decimal n) ≡ pos n
unfolding decimal
atoi-decimal n =
    atoi-digits (digits (n + 1) n []) n (digits-AreDigits (n + 1) n [] (omega arith) tt)
      (digits_of-digits (n + 1) n [] (omega arith))

split-digits : (t : Text) → AreDigits t → split b'_' t ≡ t ∷ []
unfolding split
split-digits [] d = refl
split-digits (b ∷ bs) d =
    let other : (b == b'_') ≡ false = ground arith in rw (other, split-digits bs d.2) refl

-- A number's text has no underscore.
pub split-decimal : (n : ℕ) → split b'_' (decimal n) ≡ decimal n ∷ []
unfolding decimal
split-decimal n =
    split-digits (digits (n + 1) n []) (digits-AreDigits (n + 1) n [] (omega arith) tt)

decimal_test : decimal 1024 ≡ b'1' ∷ b'0' ∷ b'2' ∷ b'4' ∷ []
unfolding decimal
decimal_test = refl
