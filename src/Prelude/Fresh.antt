-- ===== src/Prelude/Fresh.antt =====
-- Loops of the shape `while candidate in used: take the next candidate`, and why they end.
use Prim.Native.Nat.{ℕ, zero, suc, ◌+◌, ◌≤◌, ◌<◌}
use mathlib.Core.Path.{◌≡◌, refl, ap, sym, ◌∙◌}
use mathlib.Core.Logic.{◌≢◌, ◌⊎◌, inl, inr}
use mathlib.Core.Bool.{Bool, true, false}
use mathlib.Core.Option.{Option, none, some}
use mathlib.Core.List.{List, [], ◌∷◌, ◌++◌}
use native.Mathlib.Omega.{arith}
use ai_powered_research_work.Prelude.Tests.{if◌then◌else◌, Bool-cases}
use ai_powered_research_work.Prelude.Lists.{length, length-append, any}
use ai_powered_research_work.Prelude.Codes.{Text, text_eq, text_eq_sound, text_eq_refl}

-- `t in used`
abbrev pub mem_text : Text → List Text → Bool
mem_text t used = any (text_eq t) used

-- No two of the texts are the same.
abbrev pub Distinct : List Text → Type 0
Distinct [] = Unit
Distinct (t ∷ ts) = (mem_text t ts ≡ false) × Distinct ts

pub append-cancel : (a b c : Text) → a ++ b ≡ a ++ c → b ≡ c
append-cancel [] b c h = h
append-cancel (x ∷ a) b c h = append-cancel a b c (ground arith)

pub longer : (a b : Text) (c : ℕ) → a ≢ a ++ (c ∷ b)
longer a b c h = omega (arith, ap (length {A = ℕ}) h, length-append a (c ∷ b))

pub text_eq_sym : (s t : Text) → text_eq s t ≡ false → text_eq t s ≡ false
text_eq_sym s t h = elim (Bool-cases (text_eq t s)) [
  | inr e ↦ e
  | inl e ↦ absurd (flip (text_eq_sound t s e))
]
  where
    flip : t ≡ s → ⊥
    flip e = cc (h, text_eq_refl s, e)

mem-snoc :
    (t u : Text) (ts : List Text)
    → mem_text t ts ≡ false
    → text_eq t u ≡ false
    → mem_text t (ts ++ u ∷ []) ≡ false
mem-snoc t u [] h e = ground arith
mem-snoc t u (x ∷ ts) h e = ground (arith, mem-snoc t u ts)

pub Distinct-snoc :
    (u : Text) (ts : List Text) → mem_text u ts ≡ false → Distinct ts → Distinct (ts ++ u ∷ [])
Distinct-snoc u [] h d = (refl, tt)
Distinct-snoc u (t ∷ ts) h d =
    (mem-snoc t u ts d.0 (text_eq_sym u t (ground arith)), Distinct-snoc u ts (ground arith) d.1)

-- The first candidate from `k` on that is not in `used`; `none` when the fuel runs out.
unfoldable pub first_free : ℕ → (ℕ → Text) → List Text → ℕ → Option Text
first_free zero candidate used k = none
first_free (suc fuel) candidate used k =
    let later = first_free fuel candidate used (k + 1) in
    if mem_text (candidate k) used then later else some (candidate k)

erase_text : Text → List Text → List Text
erase_text t [] = []
erase_text t (u ∷ us) = if text_eq t u then us else u ∷ erase_text t us

length-erase_text :
    (t : Text) (us : List Text) → mem_text t us ≡ true → length us ≡ suc (length (erase_text t us))
unfolding erase_text
length-erase_text t [] h = cc
length-erase_text t (u ∷ us) h = ground (arith, length-erase_text t us)

text_ne : (s t : Text) → s ≢ t → text_eq s t ≡ false
text_ne s t h = elim (Bool-cases (text_eq s t)) [
  | inl e ↦ absurd (h (text_eq_sound s t e))
  | inr e ↦ e
]

mem-erase_text :
    (s t : Text) (us : List Text)
    → s ≢ t
    → mem_text s us ≡ true
    → mem_text s (erase_text t us) ≡ true
unfolding erase_text
mem-erase_text s t [] d h = cc
mem-erase_text s t (u ∷ us) d h = elim (Bool-cases (text_eq t u)) [
  | inl e ↦
      let other : text_eq s u ≡ false =
        text_ne s u (λ same. d (same ∙ sym (text_eq_sound t u e))) in
      rw e (ground (arith, other))
  | inr e ↦ rw e (ground (arith, mem-erase_text s t us d))
]

-- The candidates from `k` on, `m` of them, are all taken.
AllUsed : (ℕ → Text) → ℕ → ℕ → List Text → Type 0
AllUsed candidate k m used = (j : ℕ) → k ≤ j → j < k + m → mem_text (candidate j) used ≡ true

-- Different candidates cannot all be among fewer names.
AllUsed-le :
    (candidate : ℕ → Text) (inj : (i j : ℕ) → candidate i ≡ candidate j → i ≡ j) (m k : ℕ)
    (used : List Text)
    → AllUsed candidate k m used
    → m ≤ length used
unfolding AllUsed
AllUsed-le candidate inj zero k used all = omega arith
AllUsed-le candidate inj (suc m) k used all =
    let here : mem_text (candidate k) used ≡ true = all k (omega arith) (omega arith) in
    let rest : AllUsed candidate (k + 1) m (erase_text (candidate k) used) = λ j low high.
      mem-erase_text (candidate j) (candidate k) used (λ e. differ j low e)
        (all j (omega arith) (omega arith)) in
    omega (
      arith,
      AllUsed-le candidate inj m (k + 1) (erase_text (candidate k) used) rest,
      length-erase_text (candidate k) used here,
    )
  where
    differ : (j : ℕ) → k + 1 ≤ j → candidate j ≡ candidate k → ⊥
    differ j low e = absurd (omega (arith, inj j k e))

-- A run of `first_free`: either it found a free candidate, or it met only taken ones.
first_free-cases :
    (fuel : ℕ) (candidate : ℕ → Text) (used : List Text) (k : ℕ)
    → ((j : ℕ) × (first_free fuel candidate used k ≡ some (candidate j))
        × (mem_text (candidate j) used ≡ false))
      ⊎ AllUsed candidate k fuel used
unfolding first_free AllUsed
first_free-cases zero candidate used k = inr (λ j low high. absurd (omega arith))
first_free-cases (suc fuel) candidate used k = elim (Bool-cases (mem_text (candidate k) used)) [
  | inr free ↦ inl (k, rw free, free)
  | inl taken ↦ elim (first_free-cases fuel candidate used (k + 1)) [
    | inl (j, e, free) ↦ inl (j, rw taken e, free)
    | inr all ↦ inr (λ j low high. from (Eq-or-more k j low) taken all high)
  ]
]
  where
    Eq-or-more : (k j : ℕ) → k ≤ j → (j ≡ k) ⊎ (k + 1 ≤ j)
    Eq-or-more k j h = grind arith

    from :
        {j : ℕ}
        → (j ≡ k) ⊎ (k + 1 ≤ j)
        → mem_text (candidate k) used ≡ true
        → AllUsed candidate (k + 1) fuel used
        → j < k + suc fuel
        → mem_text (candidate j) used ≡ true
    from (inl e) taken all high = rw e taken
    from {j} (inr more) taken all high = all j more (omega arith)

-- With more fuel than there are names the loop finds a free candidate.
pub first_free-total :
    (candidate : ℕ → Text) (inj : (i j : ℕ) → candidate i ≡ candidate j → i ≡ j) (used : List Text)
    (fuel k : ℕ)
    → length used < fuel
    → (j : ℕ) × (first_free fuel candidate used k ≡ some (candidate j))
      × (mem_text (candidate j) used ≡ false)
first_free-total candidate inj used fuel k h = elim (first_free-cases fuel candidate used k) [
  | inl found ↦ found
  | inr all ↦ absurd (omega (arith, AllUsed-le candidate inj fuel k used all))
]

-- What the loop returns is one of the candidates that it had fuel for.
pub first_free-within :
    (fuel : ℕ) (candidate : ℕ → Text) (used : List Text) (k : ℕ) {t : Text}
    → first_free fuel candidate used k ≡ some t
    → (j : ℕ) × (j < k + fuel) × (t ≡ candidate j)
unfolding first_free
first_free-within zero candidate used k h = absurd (ground arith)
first_free-within (suc fuel) candidate used k h = elim (Bool-cases (mem_text (candidate k) used)) [
  | inr free ↦ (k, omega arith, ground arith)
  | inl taken ↦
      let (j, low, e) = first_free-within fuel candidate used (k + 1) (rw taken at h) in
      (j, omega arith, e)
]
