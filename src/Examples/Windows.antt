-- ===== src/Examples/Windows.antt =====
-- A conversation of eight turns that is compacted.
use ai_powered_research_work.Prelude.{
  ℕ, ◌≡◌, refl, Bool, true, false, Option, none, some, List, [], ◌∷◌, map, arith, Text, codes, ◌<◌,
  ◌⊎◌,
}
use ai_powered_research_work.Prelude.Assoc.{Assoc, lookup, insert}
use ai_powered_research_work.Writing.References.{join}
use ai_powered_research_work.Harness.Models.{Message}
use ai_powered_research_work.Harness.Resume.{RowRole, MessageRow}
use ai_powered_research_work.Harness.Compaction.{Conversation, history, maybe_compact, turns_text}
use ai_powered_research_work.Harness.Compaction.Window.{Compacted, maybe_compact_lem}

abbrev said : ℕ → RowRole → Text → MessageRow
said seq role content = record {
  conversation_id = 3;
  seq = seq;
  turn_id = seq;
  role = role;
  content = content;
  tool_name = none;
  result_id = none;
  was_interrupted = false;
}

abbrev rows : List MessageRow
rows =
    said 1 RowRole.user (codes "a")
    ∷ said 2 RowRole.tool_call (codes "t")
    ∷ said 3 RowRole.assistant (codes "b")
    ∷ said 4 RowRole.user (codes "c")
    ∷ said 5 RowRole.assistant (codes "d")
    ∷ said 6 RowRole.user (codes "e")
    ∷ said 7 RowRole.assistant (codes "f")
    ∷ said 8 RowRole.user (codes "g")
    ∷ []

abbrev conversations : Assoc Conversation
conversations = (3, record { summary = none; summarised_through_seq = none }) ∷ []

abbrev count_tokens : List Message → ℕ
count_tokens messages = 8000

abbrev repeat : Option Text → Text → Option Text
repeat old text = some text

abbrev compacted : Bool × Assoc Conversation
compacted = maybe_compact count_tokens repeat 3 (history 3 conversations rows) conversations rows

-- The first turn is summarised, and six are left.
contents_test :
    map Message.content (history 3 compacted.1 rows)
    ≡ codes "Summary of earlier conversation:\nuser: a"
      ∷ codes "b"
      ∷ codes "c"
      ∷ codes "d"
      ∷ codes "e"
      ∷ codes "f"
      ∷ codes "g"
      ∷ []
unfolding maybe_compact history turns_text join lookup insert
contents_test = refl

maybe_compact_example :
    (compacted ≡ (false, conversations))
    ⊎ (7200 < count_tokens (history 3 conversations rows))
      × (compacted.0 ≡ true)
      × Compacted repeat 3 rows conversations compacted.1
maybe_compact_example = maybe_compact_lem repeat 3 rows count_tokens conversations (
  omega arith,
  (
    omega arith,
    (omega arith, (omega arith, (omega arith, (omega arith, (omega arith, (omega arith, tt)))))),
  ),
)
