-- ===== src/Streaming/Splits.antt =====
-- How much of the buffer the recognisers of Streaming/Markup leave over.
use ai_powered_research_work.Prelude.{
  ℕ, zero, suc, ◌<◌, ◌≡◌, refl, ◌⊎◌, inl, inr, Option, none, some, [], ◌∷◌, arith, Text, length,
  take, drop, length-drop,
}
use ai_powered_research_work.Streaming.Markup.{
  Match, prepend, close_tag, trigger_len, search_trigger, find_literal,
}
use ai_powered_research_work.Streaming.Machine.{scan_quote}

-- A split leaves fewer characters behind it than there were.
abbrev pub Shorter : Option Match → Text → Type 0
Shorter none text = Unit
Shorter (some m) text = length m.after < length text

Shorter-prepend :
    (c : ℕ) (o : Option Match) (text : Text) → Shorter o text → Shorter (prepend c o) (c ∷ text)
Shorter-prepend c none text h = tt
Shorter-prepend c (some m) text h = omega arith

pub search_trigger-Shorter : (text : Text) → Shorter (search_trigger text) text
unfolding search_trigger
search_trigger-Shorter [] = tt
search_trigger-Shorter (c ∷ text) = ground (
  arith,
  Shorter-prepend c (search_trigger text) text (search_trigger-Shorter text),
  length-drop (trigger_len (c ∷ text)) (c ∷ text),
)

pub find_close-Shorter : (text : Text) → Shorter (find_literal close_tag text) text
unfolding find_literal
find_close-Shorter [] = tt
find_close-Shorter (c ∷ text) = ground (
  arith,
  Shorter-prepend c (find_literal close_tag text) text (find_close-Shorter text),
  length-drop 6 text,
)

abbrev pub ScanShorter : Option (Text × ℕ × Text) → Text → Type 0
ScanShorter none text = Unit
ScanShorter (some (b, c, after)) text = length after < length text

pub scan_quote-Shorter : (closer : ℕ) (text : Text) → ScanShorter (scan_quote closer text) text
unfolding scan_quote
scan_quote-Shorter closer [] = tt
scan_quote-Shorter closer (c ∷ text) = ground (arith, scan_quote-Shorter closer text)

-- Cutting a text off either moves nothing or leaves less.
pub cut-cases :
    (n : ℕ) (text : Text)
    → ((drop n text ≡ text) × (take n text ≡ [])) ⊎ (length (drop n text) < length text)
cut-cases zero text = inl (refl, refl)
cut-cases (suc n) [] = inl (refl, refl)
cut-cases (suc n) (c ∷ text) = inr (omega (arith, length-drop n text))
