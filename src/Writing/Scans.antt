-- ===== src/Writing/Scans.antt =====
-- Lemmas on the scans of backend/writing/citation_check.py: where a command is found and how its
-- keys are split.
use ai_powered_research_work.Prelude.{
  ℕ, ◌+◌, ◌≡◌, refl, ap, sym, ◌∙◌, Bool, true, false, not, ◌&&◌, none, some, [], ◌∷◌, ◌++◌, reverse,
  append_assoc, arith, Text, codes, length, length-append, starts_with, All, All-append, ◌==◌,
}
use mathlib.Core.List.{reverse-cons, reverse-reverse}
use ai_powered_research_work.Provenance.Normalize.{is_space}
use ai_powered_research_work.Papers.CanonicalId.{strip, strip_left}
use ai_powered_research_work.Writing.References.{contains}
use ai_powered_research_work.Writing.Citations.{
  until_brace, cite_open, cite_at, cite_groups, split_commas, cite_span,
}

starts_with-append : (s t : Text) → starts_with s (s ++ t) ≡ true
starts_with-append [] t = refl
starts_with-append (c ∷ s) t = ground (arith, starts_with-append s t)

-- A text without `}`.
abbrev pub NoBrace : Text → Type 0
NoBrace t = All (λ c. (c == 125) ≡ false) t

pub until_brace-append :
    (group t : Text) → NoBrace group → until_brace (group ++ 125 ∷ t) ≡ some group
unfolding until_brace
until_brace-append [] t h = refl
until_brace-append (c ∷ group) t h = rw (h.0, until_brace-append group t h.1) refl

pub cite_at-span :
    (group t : Text) → NoBrace group → cite_at (cite_open ++ (group ++ 125 ∷ t)) ≡ some group
unfolding cite_at
cite_at-span group t h = until_brace-append group t h

-- A scan passes over what is left of a match.
pub cite_groups-skip : (s t : Text) → cite_groups (length s) (s ++ t) ≡ cite_groups 0 t
unfolding cite_groups
cite_groups-skip [] t = refl
cite_groups-skip (c ∷ s) t = cite_groups-skip s t

cite_groups-match :
    (c : ℕ) (t : Text) {group : Text}
    → cite_at (c ∷ t) ≡ some group
    → cite_groups 0 (c ∷ t) ≡ group ∷ cite_groups (length group + 6) t
unfolding cite_groups
cite_groups-match c t h = rw (cite_groups, h) refl

cite_groups-miss :
    (c : ℕ) (t : Text) → cite_at (c ∷ t) ≡ none → cite_groups 0 (c ∷ t) ≡ cite_groups 0 t
unfolding cite_groups
cite_groups-miss c t h = rw (cite_groups, h) refl

-- What a match of the group takes behind its first character.
abbrev span_rest : Text → Text
span_rest group = codes "cite{" ++ (group ++ codes "}")

length-span_rest : (group : Text) → length (span_rest group) ≡ length group + 6
length-span_rest group = omega (arith, length-append group (codes "}"))

-- Behind a whole command the scan goes on.
pub cite_groups-span :
    (group t : Text)
    → NoBrace group
    → cite_groups 0 (cite_span group ++ t) ≡ group ∷ cite_groups 0 t
cite_groups-span group t h =
    let at : cite_at (92 ∷ (span_rest group ++ t)) ≡ some group =
      rw (append_assoc group (125 ∷ []) t) (cite_at-span group t h) in
    cite_groups-match 92 (span_rest group ++ t) at
    ∙ ap (λ groups. group ∷ groups)
        (ap (λ n. cite_groups n (span_rest group ++ t)) (sym (length-span_rest group))
          ∙ cite_groups-skip (span_rest group) t)

-- A text without a backslash.
abbrev pub IsProse : Text → Type 0
IsProse t = All (λ c. (c == 92) ≡ false) t

cite_at-other : (c : ℕ) (t : Text) → (c == 92) ≡ false → cite_at (c ∷ t) ≡ none
unfolding cite_at
cite_at-other c t h = let e : (92 == c) ≡ false = ground arith in rw e refl

-- The scan passes over prose.
pub cite_groups-prose : (s t : Text) → IsProse s → cite_groups 0 (s ++ t) ≡ cite_groups 0 t
cite_groups-prose [] t h = refl
cite_groups-prose (c ∷ s) t h =
    cite_groups-miss c (s ++ t) (cite_at-other c (s ++ t) h.0) ∙ cite_groups-prose s t h.1

-- A key without commas, braces and white space.
abbrev pub is_key_char : ℕ → Bool
is_key_char c = not (is_space c) && not (c == 44) && not (c == 125)

abbrev pub IsKey : Text → Type 0
IsKey t = All (λ d. is_key_char d ≡ true) t

pub split_commas-key : (key : Text) → IsKey key → split_commas key ≡ key ∷ []
unfolding split_commas
split_commas-key [] h = refl
split_commas-key (c ∷ key) h =
    let e : (c == 44) ≡ false = ground arith in rw (e, split_commas-key key h.1) refl

pub split_commas-keys :
    (key t : Text) → IsKey key → split_commas (key ++ 44 ∷ t) ≡ key ∷ split_commas t
unfolding split_commas
split_commas-keys [] t h = refl
split_commas-keys (c ∷ key) t h =
    let e : (c == 44) ≡ false = ground arith in rw (e, split_commas-keys key t h.1) refl

strip_left-key : (t : Text) → IsKey t → strip_left t ≡ t
unfolding strip_left
strip_left-key [] h = refl
strip_left-key (c ∷ t) h = let e : is_space c ≡ false = ground arith in rw e refl

reverse-All : (t : Text) → IsKey t → IsKey (reverse t)
reverse-All [] h = tt
reverse-All (c ∷ t) h =
    rw (reverse-cons c t) (All-append _ (reverse t) (c ∷ []) (reverse-All t h.1) (h.0, tt))

pub strip-key : (t : Text) → IsKey t → strip t ≡ t
unfolding strip
strip-key t h =
    rw (strip_left-key t h, strip_left-key (reverse t) (reverse-All t h)) (reverse-reverse t)

-- What a text contains stays in it when characters come before.
pub contains-append :
    (needle s t : Text) → contains needle t ≡ true → contains needle (s ++ t) ≡ true
unfolding contains
contains-append needle [] t h = h
contains-append needle (c ∷ s) t h = ground (arith, contains-append needle s t h)
