-- ===== src/Streaming/Marked.antt =====
-- Texts in which a whole citation tag stands, and the recognisers that keep such texts out of prose.
use ai_powered_research_work.Prelude.{
  ℕ, ◌≡◌, ◌≢◌, refl, sym, ap, inl, inr, Bool, true, false, ◌&&◌, not, Option, none, some, [], ◌∷◌,
  ◌++◌, arith, Text, starts_with, take, drop, take-append-drop, if◌then◌else◌, ◌==◌, Bool-cases,
}
use ai_powered_research_work.Streaming.Markup.{
  Match, prepend, less_than, open_tag, close_tag, open_unverified, close_unverified, tag_len,
  markup_len, trigger_len, search_trigger, strip_from, strip_tag_markup,
}
use ai_powered_research_work.Streaming.Machine.{scan_quote}

-- A whole `<cite>`, `</cite>`, `<unverified>` or `</unverified>` stands somewhere in the text.
unfoldable pub marked : Text → Bool
marked [] = false
marked (c ∷ t) = if markup_len (c ∷ t) == 0 then marked t else true

-- No `<` stands in the text.
unfoldable pub no_less_than : Text → Bool
no_less_than [] = true
no_less_than (c ∷ t) = not (c == less_than) && no_less_than t

starts_with-append : (l a b : Text) → starts_with l a ≡ true → starts_with l (a ++ b) ≡ true
starts_with-append [] a b h = refl
starts_with-append (c ∷ l) [] b h = cc
starts_with-append (c ∷ l) (d ∷ a) b h = ground (arith, starts_with-append l a b)

starts_with-shorter : (l a b : Text) → starts_with l (a ++ b) ≡ false → starts_with l a ≡ false
starts_with-shorter l a b h = ground (arith, starts_with-append l a b)

tag_len-zero :
    (p q r s : Bool) → tag_len p q r s ≡ 0 → (p ≡ false) × (q ≡ false) × (r ≡ false) × (s ≡ false)
unfolding tag_len
tag_len-zero p q r s h = ground arith

-- A tag at the head of a text is one at the head of a longer text.
markup_len-append : (a b : Text) → markup_len (a ++ b) ≡ 0 → markup_len a ≡ 0
unfolding markup_len
markup_len-append a b h =
    let (p, q, r, s) = tag_len-zero _ _ _ _ h in
    rw (
      starts_with-shorter open_tag a b p,
      starts_with-shorter close_tag a b q,
      starts_with-shorter open_unverified a b r,
      starts_with-shorter close_unverified a b s,
    )

marked_nil : marked [] ≡ false
unfolding marked
marked_nil = refl

pub marked-append : (a b : Text) → marked (a ++ b) ≡ false → marked a ≡ false
unfolding marked
marked-append [] b h = refl
marked-append (c ∷ a) b h = ground (arith, marked-append a b, markup_len-append (c ∷ a) b)

pub marked-take : (n : ℕ) (t : Text) → marked t ≡ false → marked (take n t) ≡ false
marked-take n t h = marked-append (take n t) (drop n t) (rw (take-append-drop n t) h)

-- What a search for a trigger says of the text before the trigger.
abbrev pub Plain : Option Match → Text → Type 0
Plain none text = marked text ≡ false
Plain (some m) text = (marked m.before ≡ false) × (text ≡ m.before ++ (m.literal ++ m.after))

trigger-markup : (c : ℕ) (t : Text) → trigger_len (c ∷ t) ≡ 0 → markup_len (c ∷ t) ≡ 0
unfolding trigger_len
trigger-markup c t h = ground arith

Plain-prepend :
    (c : ℕ) (text : Text) (o : Option Match)
    → markup_len (c ∷ text) ≡ 0
    → Plain o text
    → Plain (prepend c o) (c ∷ text)
unfolding marked
Plain-prepend c text none h p = rw (h, p)
Plain-prepend c text (some m) h p =
    let e : c ∷ text ≡ (c ∷ m.before) ++ (m.literal ++ m.after) = ap (λ l. c ∷ l) p.1 in
    let z : markup_len (c ∷ m.before) ≡ 0 =
      markup_len-append (c ∷ m.before) (m.literal ++ m.after) (rw (← p.1) h) in
    (rw (z, p.0), e)

Plain-at_head :
    (n : ℕ) (text : Text)
    → Plain (some (record { before = []; literal = take n text; after = drop n text })) text
unfolding marked
Plain-at_head n text = (refl, sym (take-append-drop n text))

pub search_trigger-Plain : (text : Text) → Plain (search_trigger text) text
unfolding search_trigger
search_trigger-Plain [] = marked_nil
search_trigger-Plain (c ∷ text) = elim (Bool-cases (trigger_len (c ∷ text) == 0)) [
  | inl free ↦ rw free (
      Plain-prepend c text (search_trigger text) (trigger-markup c text (ground arith))
        (search_trigger-Plain text))
  | inr hit ↦ rw hit (Plain-at_head (trigger_len (c ∷ text)) (c ∷ text))
]

-- A text without `<` has no tag, and stripping leaves it as it is.
no_less_than-markup : (c : ℕ) (t : Text) → c ≢ less_than → markup_len (c ∷ t) ≡ 0
unfolding markup_len
no_less_than-markup c t h = ground arith

pub no_less_than-marked : (t : Text) → no_less_than t ≡ true → marked t ≡ false
unfolding no_less_than marked
no_less_than-marked [] h = refl
no_less_than-marked (c ∷ t) h = ground (arith, no_less_than-marked t, no_less_than-markup c t)

no_less_than-cons :
    (c : ℕ) (t : Text) → no_less_than (c ∷ t) ≡ true → (c ≢ less_than) × (no_less_than t ≡ true)
unfolding no_less_than
no_less_than-cons c t h = ground arith

pub no_less_than-of_cons :
    (c : ℕ) (t : Text) → c ≢ less_than → no_less_than t ≡ true → no_less_than (c ∷ t) ≡ true
unfolding no_less_than
no_less_than-of_cons c t h k = ground arith

strip_from_same : (t : Text) → no_less_than t ≡ true → strip_from 0 t ≡ t
unfolding no_less_than strip_from
strip_from_same [] h = refl
strip_from_same (c ∷ t) h =
    let (other, rest) = no_less_than-cons c t h in
    rw (no_less_than-markup c t other, strip_from_same t rest)

pub strip_same : (t : Text) → no_less_than t ≡ true → strip_tag_markup t ≡ t
unfolding strip_tag_markup
strip_same t h = strip_from_same t h

pub no_less_than-append :
    (a b : Text) → no_less_than a ≡ true → no_less_than b ≡ true → no_less_than (a ++ b) ≡ true
unfolding no_less_than
no_less_than-append [] b h k = k
no_less_than-append (c ∷ a) b h k = ground (arith, no_less_than-append a b)

-- The characters that a quote collects hold no `<`.
abbrev pub Collected : Option (Text × ℕ × Text) → Text → Type 0
Collected none text = no_less_than text ≡ true
Collected (some (before, c, after)) text = no_less_than before ≡ true

pub scan_quote-Collected : (closer : ℕ) (text : Text) → Collected (scan_quote closer text) text
unfolding scan_quote no_less_than
scan_quote-Collected closer [] = refl
scan_quote-Collected closer (c ∷ text) = ground (arith, scan_quote-Collected closer text)

pub no_less_than_nil : no_less_than [] ≡ true
unfolding no_less_than
no_less_than_nil = refl

-- A short quote and an abandoned one are shown without a tag.
pub quoted-marked :
    (opener : ℕ) (t : Text)
    → opener ≢ less_than
    → no_less_than t ≡ true
    → marked (strip_tag_markup (opener ∷ t)) ≡ false
quoted-marked opener t h k =
    let plain : no_less_than (opener ∷ t) ≡ true = no_less_than-of_cons opener t h k in
    rw (strip_same (opener ∷ t) plain) (no_less_than-marked (opener ∷ t) plain)
