-- ===== src/Harness/Compaction.antt =====
-- The window of a conversation: `_history` of backend/harness/loop.py and `maybe_compact` of
-- backend/harness/compaction.py. The token counter and the reply of the model that summarises are
-- arguments; `messages` is the table in the order of `seq`. The job that chunks a new summary,
-- enqueued after the commit, is left out.
pub mod Window
use ai_powered_research_work.Prelude.{
  ℕ, ◌-◌, Bool, true, false, not, ◌&&◌, Option, none, some, List, [], ◌∷◌, ◌++◌, map, Text, codes,
  is_empty, length, take, keep, leb, ltb, ◌==◌, if◌then◌else◌,
}
use ai_powered_research_work.Prelude.Assoc.{Assoc, lookup, insert}
use ai_powered_research_work.Writing.References.{join}
use ai_powered_research_work.Harness.Models.{Role, system, user, assistant, Message}
use ai_powered_research_work.Harness.Resume.{RowRole, MessageRow}
use ai_powered_research_work.Harness.Resume

pub record Conversation : Type 0 where
  pub summary : Option Text
  pub summarised_through_seq : Option ℕ

abbrev pub is_spoken : MessageRow → Bool
is_spoken row = elim row.role [ Resume.user ↦ true | Resume.assistant ↦ true | _ ↦ false ]

-- The role of a message for a row that is spoken.
abbrev pub spoken_role : RowRole → Role
spoken_role Resume.user = user
spoken_role _ = assistant

abbrev pub message_of : MessageRow → Message
message_of row = record {
  role = spoken_role row.role;
  content = row.content;
  tool_calls = [];
  tool_call_id = none;
}

abbrev pub rows_of : ℕ → List MessageRow → List MessageRow
rows_of id messages = keep (λ r. r.conversation_id == id) messages

abbrev pub after_seq : ℕ → List MessageRow → List MessageRow
after_seq seq rows = keep (λ r. ltb seq r.seq) rows

-- `if watermark`: neither None nor 0.
abbrev pub past_watermark : Option ℕ → List MessageRow → List MessageRow
past_watermark none rows = rows
past_watermark (some seq) rows = if seq == 0 then rows else after_seq seq rows

abbrev pub summary_message : Text → Message
summary_message summary = record {
  role = system;
  content = codes "Summary of earlier conversation:\n" ++ summary;
  tool_calls = [];
  tool_call_id = none;
}

abbrev pub prefixed : Option Text → List Message → List Message
prefixed none messages = messages
prefixed (some summary) messages =
    if is_empty summary then messages else summary_message summary ∷ messages

abbrev pub spoken : List MessageRow → List MessageRow
spoken rows = keep is_spoken rows

abbrev pub history_of : Option Conversation → List MessageRow → List Message
history_of none rows = map message_of (spoken rows)
history_of (some c) rows =
    prefixed c.summary (map message_of (spoken (past_watermark c.summarised_through_seq rows)))

-- `_history`
unfoldable pub history : ℕ → Assoc Conversation → List MessageRow → List Message
history id conversations messages = history_of (lookup id conversations) (rows_of id messages)

abbrev pub seq_or_zero : Option ℕ → ℕ
seq_or_zero none = 0
seq_or_zero (some seq) = seq

abbrev pub last_seq : ℕ → List MessageRow → ℕ
last_seq seq [] = seq
last_seq seq (row ∷ rows) = last_seq row.seq rows

abbrev role_name : RowRole → Text
role_name Resume.user = codes "user"
role_name Resume.assistant = codes "assistant"
role_name Resume.tool_call = codes "tool_call"
role_name Resume.tool_result = codes "tool_result"

unfoldable pub turns_text : List MessageRow → Text
unfolding join
turns_text rows =
    join (codes "\n\n") (map (λ r. role_name (MessageRow.role r) ++ codes ": " ++ r.content) rows)

abbrev pub summarised :
    ℕ → Assoc Conversation → List MessageRow → Option Text → Bool × Assoc Conversation
summarised id conversations covered none = (false, conversations)
summarised id conversations covered (some summary) = (
  true,
  insert id (record { summary = some summary; summarised_through_seq = some (last_seq 0 covered) })
      conversations,
)

module _ (count_tokens : List Message → ℕ) (summarize : Option Text → Text → Option Text) where
  abbrev pub compact_rows :
      ℕ → Assoc Conversation → Conversation → List MessageRow → Bool × Assoc Conversation
  compact_rows id conversations c rows =
      let covered = take (length rows - 6) rows in
      if leb (length rows) 6
      then (false, conversations)
      else summarised id conversations covered (summarize c.summary (turns_text covered))

  abbrev pub compact_found :
      ℕ → Assoc Conversation → List MessageRow → Option Conversation → Bool × Assoc Conversation
  compact_found id conversations messages none = (false, conversations)
  compact_found id conversations messages (some c) =
      compact_rows id conversations c
        (spoken (after_seq (seq_or_zero c.summarised_through_seq) (rows_of id messages)))

  -- `maybe_compact`, given the history of the conversation.
  unfoldable pub maybe_compact :
      ℕ → List Message → Assoc Conversation → List MessageRow → Bool × Assoc Conversation
  unfolding turns_text
  maybe_compact id history conversations messages =
      if leb (count_tokens history) 7200
      then (false, conversations)
      else compact_found id conversations messages (lookup id conversations)
