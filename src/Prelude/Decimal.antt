-- ===== src/Prelude/Decimal.antt =====
-- `str(n)` of a natural number, and that different numbers print differently.
use Prim.Native.Nat.{ℕ, zero, suc, ◌+◌, ◌-◌, ◌*◌, ◌/◌, ◌%◌, ◌≤◌, ◌<◌}
use mathlib.Core.Path.{◌≡◌, refl, sym, ◌∙◌, ap}
use mathlib.Core.Logic.{inl, inr}
use mathlib.Core.Bool.{Bool, true, ◌&&◌}
use mathlib.Core.List.{[], ◌∷◌, ◌++◌}
use native.Mathlib.Omega.{arith}
use ai_powered_research_work.Prelude.Tests.{ltb, leb, if◌then◌else◌, Bool-cases}
use ai_powered_research_work.Prelude.Lists.{All, All-append}
use ai_powered_research_work.Prelude.Codes.{Text, codes}

digits : ℕ → ℕ → Text
digits zero n = []
digits (suc fuel) n =
    let front = digits fuel (n / 10) in
    if ltb n 10 then (48 + n) ∷ [] else front ++ (48 + n % 10) ∷ []

unfoldable pub decimal : ℕ → Text
unfolding digits
decimal n = digits (suc n) n

value_from : ℕ → Text → ℕ
value_from acc [] = acc
value_from acc (c ∷ t) = value_from (acc * 10 + (c - 48)) t

value_from-append :
    (acc : ℕ) (a b : Text) → value_from acc (a ++ b) ≡ value_from (value_from acc a) b
unfolding value_from
value_from-append acc [] b = refl
value_from-append acc (c ∷ a) b = value_from-append (acc * 10 + (c - 48)) a b

value-digits : (fuel n : ℕ) → n < fuel → value_from 0 (digits fuel n) ≡ n
unfolding value_from digits
value-digits zero n h = absurd (omega arith)
value-digits (suc fuel) n h = elim (Bool-cases (ltb n 10)) [
  | inl small ↦ rw small (omega arith)
  | inr large ↦
      let ten : 10 ≤ n = ground arith in
      rw
        (
          large,
          value_from-append 0 (digits fuel (n / 10)) ((48 + n % 10) ∷ []),
          value-digits fuel (n / 10) (omega arith),
        )
        (omega arith)
]

pub decimal-injective : (m n : ℕ) → decimal m ≡ decimal n → m ≡ n
unfolding decimal
decimal-injective m n e =
    sym (value-digits (suc m) m (omega arith))
    ∙ (ap (value_from 0) e ∙ value-digits (suc n) n (omega arith))

-- A numeral has digits only.
abbrev pub is_digit : ℕ → Bool
is_digit c = leb 48 c && leb c 57

digits-All : (fuel n : ℕ) → All (λ c. is_digit c ≡ true) (digits fuel n)
unfolding digits
digits-All zero n = tt
digits-All (suc fuel) n = elim (Bool-cases (ltb n 10)) [
  | inl small ↦ rw small (ground arith, tt)
  | inr large ↦
      rw large (All-append _ _ _ (digits-All fuel (n / 10)) (digit (n % 10) (omega arith), tt))
]
  where
    digit : (d : ℕ) → d < 10 → is_digit (48 + d) ≡ true
    digit d h = ground arith

pub decimal-All : (n : ℕ) → All (λ c. is_digit c ≡ true) (decimal n)
unfolding decimal
decimal-All n = digits-All (suc n) n

decimal_test : decimal 1070 ≡ codes "1070"
unfolding decimal
decimal_test = refl
