-- ===== src/Provenance/Spans.antt =====
-- The spans that `locate` and `locate_all` return.
use ai_powered_research_work.Prelude.{
  ℕ, zero, suc, ◌+◌, ◌-◌, ◌≤◌, ◌<◌, ◌≡◌, ◌↔◌, refl, ap, subst, ◌∙◌, inl, inr, true, Option, none,
  some, List, [], ◌∷◌, arith, Text, starts_with, text_eq_sound, text_eq_refl, length, drop,
  length-drop, drop-drop, All, Bool-cases, Option-cases,
}
use ai_powered_research_work.Provenance.Normalize.{normalize_with_positions, normal_text}
use ai_powered_research_work.Provenance.Locator.{
  slice, validate_substring, CharSpan, find, find_from, find_all, span_at, spans_at, locate_normal,
  locate, locate_all_normal, locate_all,
}
use ai_powered_research_work.Provenance.Positions.{
  starts_with-length, Ascending, normalize-Ascending, position_at-lt, position_at_mono,
  length-normal_text, matches, FindSays, find-FindSays,
}

-- D24's check says exactly that the offsets are a non-empty range of the text that holds the quote.
pub validate_substring_iff :
    (text quote : Text) (char_start char_end : ℕ)
    → (validate_substring text quote char_start char_end ≡ true) ↔ (
        (char_start < char_end)
        × (char_end ≤ length text)
        × (slice text char_start char_end ≡ quote))
unfolding validate_substring
validate_substring_iff text quote a b = (forth, back)
  where
    forth :
        validate_substring text quote a b ≡ true
        → (a < b) × (b ≤ length text) × (slice text a b ≡ quote)
    forth h = (ground arith, ground arith, text_eq_sound _ _ (ground arith))

    back :
        (a < b) × (b ≤ length text) × (slice text a b ≡ quote)
        → validate_substring text quote a b ≡ true
    back (l, u, e) = rw (e, text_eq_refl quote) (ground arith)

-- A non-empty range of a text of length `n`.
abbrev pub InText : ℕ → CharSpan → Type 0
InText n s = (s.start < s.end) × (s.end ≤ n)

span_at-InText :
    (es : List (ℕ × ℕ)) (hi n index : ℕ)
    → Ascending 0 hi es
    → 0 < n
    → index + n ≤ length es
    → InText hi (span_at es n index)
unfolding span_at
span_at-InText es hi n index h pos l =
    let first = position_at_mono 0 hi es index (index + n - 1) h (omega arith) (omega arith) in
    let last = position_at-lt 0 hi es (index + n - 1) h (omega arith) in (omega arith, omega arith)

-- The loop of `locate_all` returns every match, in order.
find_all_lem :
    (fuel : ℕ) (needle text : Text) (k : ℕ)
    → 0 < length needle
    → k ≤ length text
    → length text < k + fuel
    → find_all fuel needle text k ≡ some (matches needle k (drop k text))
unfolding find_all find_from
find_all_lem zero needle text k p u h = absurd (omega arith)
find_all_lem (suc fuel) needle text k p u h = elim (Option-cases (find needle (drop k text))) [
  | inl e ↦
      let says = subst (FindSays needle k (drop k text)) e (find-FindSays needle k (drop k text)) in
      rw (e, says)
  | inr (j, e) ↦
      let says = subst (FindSays needle k (drop k text)) e (find-FindSays needle k (drop k text)) in
      let inside : k + j + 1 ≤ length text = omega (arith, says.1, length-drop k text) in
      let next : drop (j + 1) (drop k text) ≡ drop (k + j + 1) text =
        drop-drop k (j + 1) text ∙ ap (λ i. drop i text) (omega arith) in
      rw (e, says.0, next, find_all_lem fuel needle text (k + j + 1) p inside (omega arith))
]

-- Every listed index leaves room for `n` characters.
abbrev InBounds : ℕ → ℕ → List ℕ → Type 0
InBounds n len [] = Unit
InBounds n len (i ∷ l) = (i + n ≤ len) × InBounds n len l

matches-InBounds :
    (needle : Text) (i : ℕ) (t : Text)
    → InBounds (length needle) (i + length t) (matches needle i t)
unfolding matches
matches-InBounds needle i [] = tt
matches-InBounds needle i (c ∷ t) =
    let e : i + 1 + length t ≡ i + suc (length t) = omega arith in
    let rest =
      subst (λ n. InBounds (length needle) n (matches needle (i + 1) t)) e
        (matches-InBounds needle (i + 1) t) in
    elim (Bool-cases (starts_with needle (c ∷ t))) [
      | inl here ↦ rw here (omega (arith, starts_with-length needle (c ∷ t) here), rest)
      | inr later ↦ rw later rest
    ]

spans-InText :
    (es : List (ℕ × ℕ)) (hi n : ℕ) (l : List ℕ)
    → Ascending 0 hi es
    → 0 < n
    → InBounds n (length es) l
    → All (InText hi) (spans_at es n l)
spans-InText es hi n [] a p h = tt
spans-InText es hi n (i ∷ l) a p h =
    (span_at-InText es hi n i a p h.0, spans-InText es hi n l a p h.1)

abbrev pub first_span : List CharSpan → Option CharSpan
first_span [] = none
first_span (s ∷ l) = some s

locate_first :
    (c : ℕ) (needle : Text) (es : List (ℕ × ℕ))
    → locate_normal (c ∷ needle) es
      ≡ first_span (spans_at es (length (c ∷ needle)) (matches (c ∷ needle) 0 (normal_text es)))
unfolding locate_normal
locate_first c needle es =
    let t = normal_text es in
    elim (Option-cases (find (c ∷ needle) t)) [
      | inl e ↦
          let says = subst (FindSays (c ∷ needle) 0 t) e (find-FindSays (c ∷ needle) 0 t) in
          rw (e, says)
      | inr (j, e) ↦
          let says = subst (FindSays (c ∷ needle) 0 t) e (find-FindSays (c ∷ needle) 0 t) in
          let z : 0 + j ≡ j = omega arith in rw (e, says.0, z)
    ]

-- What both functions return, on the normalised quote.
LocatedAs : Text → List (ℕ × ℕ) → ℕ → Type 0
LocatedAs needle es n =
    (spans : List CharSpan) × (locate_all_normal needle es ≡ some spans)
    × (locate_normal needle es ≡ first_span spans)
    × All (InText n) spans

located : (needle : Text) (es : List (ℕ × ℕ)) (n : ℕ) → Ascending 0 n es → LocatedAs needle es n
unfolding LocatedAs locate_all_normal locate_normal
located [] es n a = ([], refl, refl, tt)
located (c ∷ needle) es n a =
    let t = normal_text es in
    let m = matches (c ∷ needle) 0 t in
    let e =
      find_all_lem (suc (length t)) (c ∷ needle) t 0 (omega arith) (omega arith) (omega arith) in
    let len : 0 + length t ≡ length es = omega (arith, length-normal_text es) in
    (
      spans_at es (length (c ∷ needle)) m,
      rw e,
      locate_first c needle es,
      spans-InText es n (length (c ∷ needle)) m a (omega arith)
          (subst (λ k. InBounds (length (c ∷ needle)) k m) len (matches-InBounds (c ∷ needle) 0 t)),
    )

-- `locate_all` returns on every quote and text, and each of its spans is a non-empty range of the
-- text. `locate` returns its first span, and nothing exactly when it has none.
pub locate_all_lem :
    (quote text_stream : Text)
    → (spans : List CharSpan) × (locate_all quote text_stream ≡ some spans)
      × (locate quote text_stream ≡ first_span spans)
      × All (InText (length text_stream)) spans
unfolding locate_all locate LocatedAs
locate_all_lem quote text_stream =
    located (normal_text (normalize_with_positions quote)) (normalize_with_positions text_stream)
      (length text_stream) (normalize-Ascending text_stream)
