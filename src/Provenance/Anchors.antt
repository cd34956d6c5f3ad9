-- ===== src/Provenance/Anchors.antt =====
-- `validate_and_anchor` and `get_anchor` of backend/provenance/__init__.py. Rows and papers are
-- named by numbers; the similarity of `difflib` is a parameter.
use ai_powered_research_work.Prelude.{
  ℕ, ◌+◌, ◌-◌, ◌≤◌, ◌<◌, ◌≡◌, ◌≢◌, refl, Bool, true, false, ◌&&◌, Option, none, some, List, [], ◌∷◌,
  arith, Text, length, take, drop, All, if◌then◌else◌, leb, ltb, ◌==◌,
}
use ai_powered_research_work.Prelude.Assoc.{Assoc, lookup, insert, lookup-insert}
use ai_powered_research_work.Provenance.Locator.{slice, CharSpan, locate, locate_all}
use ai_powered_research_work.Provenance.Spans.{InText, first_span, locate_all_lem}

-- `SequenceMatcher(None, a, b).ratio()`, the sum of two ratios and `>` on sums.
pub record Similarity : Type 1 where
  pub Score : Type 0
  pub ratio : Text → Text → Score
  pub plus : Score → Score → Score
  pub exceeds : Score → Score → Bool

pub record Section : Type 0 where
  pub heading : Option Text
  pub char_start : ℕ
  pub char_end : ℕ

pub record PaperContent : Type 0 where
  pub full_text : Text
  pub sections : List Section

pub record QuoteAnchor : Type 0 where
  pub id : ℕ
  pub paper_id : ℕ
  pub quote : Text
  pub prefix : Text
  pub suffix : Text
  pub char_start : ℕ
  pub char_end : ℕ
  pub section_heading : Option Text
  pub validated_at : ℕ

pub record Tables : Type 0 where
  pub contents : Assoc PaperContent
  pub anchors : Assoc QuoteAnchor

abbrev pub context_window : ℕ
context_window = 40

-- `_section_for_offset`, for sections that carry both offsets
unfoldable pub section_for_offset : List Section → ℕ → Option Text
section_for_offset [] offset = none
section_for_offset (s ∷ rest) offset =
    if leb s.char_start offset && ltb offset s.char_end
    then s.heading
    else section_for_offset rest offset

-- `get_anchor`
unfoldable pub get_anchor : Tables → ℕ → Option QuoteAnchor
get_anchor tables anchor_id = lookup anchor_id tables.anchors

module _ (similarity : Similarity) where
  open similarity use {Score, ratio, plus, exceeds}

  unfoldable pub context_score : Text → CharSpan → Text → Text → Score
  context_score full_text span prefix suffix =
      plus
        (ratio (slice full_text (span.start - context_window) span.start)
          (drop (length prefix - context_window) prefix))
        (ratio (slice full_text span.end (span.end + context_window)) (take context_window suffix))

  -- `max(candidates, key=…)`: the first of the best.
  unfoldable pub best_span : (CharSpan → Score) → CharSpan → List CharSpan → CharSpan
  best_span key best [] = best
  best_span key best (s ∷ rest) =
      best_span key (if exceeds (key s) (key best) then s else best) rest

  abbrev pub anchor_row : ℕ → ℕ → ℕ → Text → Text → Text → CharSpan → List Section → QuoteAnchor
  anchor_row new_id now paper_id quote prefix suffix span sections = record {
    id = new_id;
    paper_id = paper_id;
    quote = quote;
    prefix = prefix;
    suffix = suffix;
    char_start = span.start;
    char_end = span.end;
    section_heading = section_for_offset sections span.start;
    validated_at = now;
  }

  -- After `locate_all`: `None` without a candidate, else the row of the best one.
  unfoldable pub anchor_best :
      ℕ
      → ℕ
      → Tables
      → ℕ
      → PaperContent
      → Text
      → Text
      → Text
      → List CharSpan
      → Tables × Option QuoteAnchor
  unfolding context_score
  anchor_best new_id now tables paper_id content quote prefix suffix [] = (tables, none)
  anchor_best new_id now tables paper_id content quote prefix suffix (s ∷ rest) =
      let span = best_span (λ c. context_score content.full_text c prefix suffix) s rest in
      let row = anchor_row new_id now paper_id quote prefix suffix span content.sections in
      (record tables { anchors = insert new_id row tables.anchors }, some row)

  abbrev pub with_candidates :
      Option (List CharSpan)
      → (List CharSpan → Tables × Option QuoteAnchor)
      → Option (Tables × Option QuoteAnchor)
  with_candidates none k = none
  with_candidates (some l) k = some (k l)

  -- With the paper's content at hand. The outer `none` is `locate_all` out of fuel.
  unfoldable pub anchor_in :
      ℕ
      → ℕ
      → Tables
      → ℕ
      → Option PaperContent
      → Text
      → Text
      → Text
      → Option (Tables × Option QuoteAnchor)
  anchor_in new_id now tables paper_id none quote prefix suffix = some (tables, none)
  anchor_in new_id now tables paper_id (some content) quote prefix suffix =
      with_candidates (locate_all quote content.full_text)
        (anchor_best new_id now tables paper_id content quote prefix suffix)

  unfoldable pub validate_and_anchor :
      ℕ → ℕ → Tables → ℕ → Text → Text → Text → Option (Tables × Option QuoteAnchor)
  validate_and_anchor new_id now tables paper_id quote prefix suffix =
      anchor_in new_id now tables paper_id (lookup paper_id tables.contents) quote prefix suffix

  best_span-InText :
      (n : ℕ) (key : CharSpan → Score) (best : CharSpan) (rest : List CharSpan)
      → InText n best
      → All (InText n) rest
      → InText n (best_span key best rest)
  unfolding best_span
  best_span-InText n key best [] b h = b
  best_span-InText n key best (s ∷ rest) b h =
      best_span-InText n key (if exceeds (key s) (key best) then s else best) rest
        (either (exceeds (key s) (key best)) h.0 b) h.1
    where
      either : (t : Bool) → InText n s → InText n best → InText n (if t then s else best)
      either true x y = x
      either false x y = y

  -- What a call leaves behind: no anchor, no quote in the text and nothing changed; or an anchor
  -- for the quote, at a non-empty range of the text, that can be read back.
  abbrev pub Anchored : ℕ → Tables → ℕ → PaperContent → Text → Tables × Option QuoteAnchor → Type 0
  Anchored new_id tables paper_id content quote (tables', none) =
      (tables' ≡ tables) × (locate quote content.full_text ≡ none)
  Anchored new_id tables paper_id content quote (tables', some a) =
      (a.quote ≡ quote)
      × (a.paper_id ≡ paper_id)
      × (a.char_start < a.char_end)
      × (a.char_end ≤ length content.full_text)
      × (locate quote content.full_text ≢ none)
      × (get_anchor tables' new_id ≡ some a)
      × (tables'.contents ≡ tables.contents)
      × ((other : ℕ)
          → get_anchor tables' other
            ≡ (if new_id == other then some a else get_anchor tables other))

  anchor_best-Anchored :
      (new_id now : ℕ) (tables : Tables) (paper_id : ℕ) (content : PaperContent)
      (quote prefix suffix : Text) (spans : List CharSpan)
      → locate quote content.full_text ≡ first_span spans
      → All (InText (length content.full_text)) spans
      → Anchored new_id tables paper_id content quote
          (anchor_best new_id now tables paper_id content quote prefix suffix spans)
  unfolding anchor_best get_anchor
  anchor_best-Anchored new_id now tables paper_id content quote prefix suffix [] e h = (refl, e)
  anchor_best-Anchored new_id now tables paper_id content quote prefix suffix (s ∷ rest) e h =
      let (a, b) =
        best_span-InText (length content.full_text)
          (λ c. context_score content.full_text c prefix suffix) s rest h.0 h.1 in
      (
        refl,
        refl,
        a,
        b,
        λ bad. cc (e, bad),
        rw lookup-insert (ground arith),
        refl,
        λ other. lookup-insert new_id other _ tables.anchors,
      )

  -- For a paper with parsed text the call returns: with an anchor exactly when the quote is located
  -- in the text. The anchor holds the quote and a non-empty range of the text, is the row that
  -- `get_anchor` reads back under the new id, and no other row changes.
  pub validate_and_anchor_lem :
      (new_id now : ℕ) (tables : Tables) (paper_id : ℕ) (content : PaperContent)
      (quote prefix suffix : Text)
      → lookup paper_id tables.contents ≡ some content
      → (r : Tables × Option QuoteAnchor) × (validate_and_anchor new_id now tables paper_id quote
            prefix suffix
          ≡ some r)
        × Anchored new_id tables paper_id content quote r
  unfolding validate_and_anchor anchor_in
  validate_and_anchor_lem new_id now tables paper_id content quote prefix suffix h =
      let (spans, e, first, valid) = locate_all_lem quote content.full_text in
      (
        anchor_best new_id now tables paper_id content quote prefix suffix spans,
        rw (h, e),
        anchor_best-Anchored new_id now tables paper_id content quote prefix suffix spans first
            valid,
      )
