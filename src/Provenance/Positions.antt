-- ===== src/Provenance/Positions.antt =====
-- Where the characters of a normalised text come from: in order, and inside the text.
use ai_powered_research_work.Prelude.{
  ℕ, zero, suc, ◌+◌, ◌≤◌, ◌<◌, ◌≡◌, refl, ap, inl, inr, Bool, true, false, Option, none, some, List,
  [], ◌∷◌, ◌++◌, arith, Text, starts_with, length, drop, if◌then◌else◌, Bool-cases,
}
use ai_powered_research_work.Provenance.Normalize.{
  expand, at_position, normalize_from, normalize_with_positions, normal_text,
}
use ai_powered_research_work.Provenance.Locator.{position_at, find, bump}

-- The positions ascend from `lo` on and stay below `hi`.
abbrev pub Ascending : ℕ → ℕ → List (ℕ × ℕ) → Type 0
Ascending lo hi [] = Unit
Ascending lo hi ((c, p) ∷ r) = (lo ≤ p) × (p < hi) × Ascending p hi r

Ascending-weaken :
    (lo lo' hi : ℕ) (r : List (ℕ × ℕ)) → lo ≤ lo' → Ascending lo' hi r → Ascending lo hi r
Ascending-weaken lo lo' hi [] l h = tt
Ascending-weaken lo lo' hi ((c, p) ∷ r) l h = (omega arith, h.1, h.2)

Ascending-append :
    (lo i hi : ℕ) (out : Text) (r : List (ℕ × ℕ))
    → lo ≤ i
    → i < hi
    → Ascending i hi r
    → Ascending lo hi (at_position i out ++ r)
Ascending-append lo i hi [] r l u h = Ascending-weaken lo i hi r l h
Ascending-append lo i hi (c ∷ out) r l u h = (l, u, Ascending-append i i hi out r (omega arith) u h)

normalize_from-Ascending :
    (skips : Bool) (i : ℕ) (t : Text) → Ascending i (i + length t) (normalize_from skips i t)
unfolding normalize_from
normalize_from-Ascending skips i [] = tt
normalize_from-Ascending skips i (c ∷ t) =
    let (out, next) = expand skips c t in
    let rest = normalize_from-Ascending next (i + 1) t in
    let e : i + 1 + length t ≡ i + suc (length t) = omega arith in
    Ascending-append i i (i + suc (length t)) out (normalize_from next (i + 1) t) (omega arith)
      (omega arith) (Ascending-weaken i (i + 1) _ _ (omega arith) (rw e at rest))

-- The positions of a normalised text ascend, and lie in the text.
pub normalize-Ascending : (t : Text) → Ascending 0 (length t) (normalize_with_positions t)
unfolding normalize_with_positions
normalize-Ascending t =
    let e : 0 + length t ≡ length t = omega arith in rw e at (normalize_from-Ascending false 0 t)

pub position_at-lt :
    (lo hi : ℕ) (es : List (ℕ × ℕ)) (k : ℕ)
    → Ascending lo hi es
    → k < length es
    → (lo ≤ position_at es k) × (position_at es k < hi)
position_at-lt lo hi [] k h l = absurd (omega arith)
position_at-lt lo hi ((c, p) ∷ r) zero h l = (h.0, h.1)
position_at-lt lo hi ((c, p) ∷ r) (suc k) h l =
    let (a, b) = position_at-lt p hi r k h.2 (omega arith) in (omega arith, b)

pub position_at_mono :
    (lo hi : ℕ) (es : List (ℕ × ℕ)) (j k : ℕ)
    → Ascending lo hi es
    → j ≤ k
    → k < length es
    → position_at es j ≤ position_at es k
position_at_mono lo hi [] j k h l m = absurd (omega arith)
position_at_mono lo hi ((c, p) ∷ r) zero zero h l m = omega arith
position_at_mono lo hi ((c, p) ∷ r) zero (suc k) h l m =
    (position_at-lt p hi r k h.2 (omega arith)).0
position_at_mono lo hi ((c, p) ∷ r) (suc j) zero h l m = absurd (omega arith)
position_at_mono lo hi ((c, p) ∷ r) (suc j) (suc k) h l m =
    position_at_mono p hi r j k h.2 (omega arith) (omega arith)

pub length-normal_text : (es : List (ℕ × ℕ)) → length (normal_text es) ≡ length es
length-normal_text [] = refl
length-normal_text ((c, p) ∷ r) = ap suc (length-normal_text r)

-- Every index at which the needle stands, `i` for the head of the text.
unfoldable pub matches : Text → ℕ → Text → List ℕ
matches needle i [] = []
matches needle i (c ∷ t) =
    let rest = matches needle (i + 1) t in if starts_with needle (c ∷ t) then i ∷ rest else rest

pub starts_with-length : (n t : Text) → starts_with n t ≡ true → length n ≤ length t
starts_with-length [] t h = omega arith
starts_with-length (c ∷ n) [] h = cc
starts_with-length (c ∷ n) (d ∷ t) h = ground (arith, starts_with-length n t)

-- What `find` says of the matches: none, or the first and the rest behind it.
abbrev pub FindSays : Text → ℕ → Text → Option ℕ → Type 0
FindSays needle i t none = matches needle i t ≡ []
FindSays needle i t (some j) =
    (matches needle i t ≡ (i + j) ∷ matches needle (i + j + 1) (drop (j + 1) t))
    × (j + length needle ≤ length t)

FindSays-later :
    (needle : Text) (i c : ℕ) (t : Text) (r : Option ℕ)
    → starts_with needle (c ∷ t) ≡ false
    → FindSays needle (i + 1) t r
    → FindSays needle i (c ∷ t) (bump r)
unfolding matches
FindSays-later needle i c t none h s = rw (h, s)
FindSays-later needle i c t (some j) h s =
    let same : i + 1 + j ≡ i + suc j = omega arith in
    let step : suc j + 1 ≡ suc (j + 1) = omega arith in (rw (h, s.0, same, step), omega arith)

FindSays-here :
    (needle : Text) (i c : ℕ) (t : Text)
    → starts_with needle (c ∷ t) ≡ true
    → FindSays needle i (c ∷ t) (some 0)
unfolding matches
FindSays-here needle i c t h =
    let same : i + 0 ≡ i = omega arith in
    (rw (h, same), omega (arith, starts_with-length needle (c ∷ t) h))

pub find-FindSays : (needle : Text) (i : ℕ) (t : Text) → FindSays needle i t (find needle t)
unfolding find matches
find-FindSays needle i [] = refl
find-FindSays needle i (c ∷ t) = elim (Bool-cases (starts_with needle (c ∷ t))) [
  | inl here ↦ rw here (FindSays-here needle i c t here)
  | inr later ↦
      rw later (FindSays-later needle i c t (find needle t) later (find-FindSays needle (i + 1) t))
]
