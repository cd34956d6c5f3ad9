-- ===== src/Streaming/Runs.antt =====
-- Runs of the machine at fixed inputs.
use ai_powered_research_work.Prelude.{
  ℕ, ◌≡◌, refl, Option, none, some, List, [], Text, codes, length,
}
use ai_powered_research_work.Streaming.Markup.{
  quote_closer, strip_tag_markup, markup_len, trigger_len, search_trigger, find_literal,
  partial_suffix_overlap, partial_delimiter_len,
}
use ai_powered_research_work.Streaming.Machine.{
  CitationStream, concat, fresh, resolve_span, open_span, scan_quote, advance, unchanged, measure,
  feed, flush,
}

-- All that a run calls.
program : Unit {0}
unfolding quote_closer strip_tag_markup markup_len trigger_len search_trigger find_literal
    partial_suffix_overlap partial_delimiter_len resolve_span open_span scan_quote advance unchanged
    measure feed flush
program = tt

abbrev accept_all : Text → Option ℕ
accept_all q = some (length q)

abbrev reject_all : Text → Option ℕ
reject_all q = none

abbrev shown : Option (CitationStream ℕ × List Text) → Text
shown none = []
shown (some (s, pieces)) = concat (flush s).0.text_parts

feed_cited :
    shown (feed accept_all fresh (codes "as <cite>they say</cite>."))
    ≡ codes "as <cite>they say</cite>."
unfolding program
feed_cited = refl

feed_rejected :
    shown (feed reject_all fresh (codes "as <cite>they say</cite>."))
    ≡ codes "as <unverified>they say</unverified>."
unfolding program
feed_rejected = refl

feed_short_quote : shown (feed reject_all fresh (codes "a \"b\" c")) ≡ codes "a \"b\" c"
unfolding program
feed_short_quote = refl

-- Stray markup that is dropped from prose can leave two halves of a tag side by side.
feed_forged :
    shown (feed reject_all fresh (codes "<ci</cite>te>made up</ci</cite>te>"))
    ≡ codes "<cite>made up</cite>"
unfolding program
feed_forged = refl
