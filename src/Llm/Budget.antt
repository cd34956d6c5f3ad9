-- ===== src/Llm/Budget.antt =====
-- `_fit_to_budget` of backend/llm/__init__.py. The token counter of litellm is an argument. A
-- difference that may be negative is a comparison of sums.
use ai_powered_research_work.Prelude.{
  ℕ, zero, suc, ◌+◌, ◌-◌, ◌/◌, Bool, Option, none, some, List, [], ◌∷◌, length, take, ltb, leb,
  if◌then◌else◌,
}
use ai_powered_research_work.Harness.Models.{Message}

-- `max(range(len(messages)), key=...)`: the first index of a longest content; `best` is the index
-- so far, `size` its length, `i` the index of the head.
unfoldable pub longest_from : ℕ → ℕ → ℕ → List Message → ℕ
longest_from best size i [] = best
longest_from best size i (m ∷ messages) =
    if ltb size (length m.content)
    then longest_from i (length m.content) (suc i) messages
    else longest_from best size (suc i) messages

-- The message at an index, changed.
unfoldable pub change_at : (Message → Message) → ℕ → List Message → List Message
change_at f i [] = []
change_at f zero (m ∷ messages) = f m ∷ messages
change_at f (suc i) (m ∷ messages) = m ∷ change_at f i messages

unfoldable pub content_length : ℕ → List Message → ℕ
content_length i [] = 0
content_length zero (m ∷ messages) = length m.content
content_length (suc i) (m ∷ messages) = content_length i messages

-- A wire message with the first `k` characters of its content.
abbrev pub cut_content : ℕ → Message → Message
cut_content k m = record m { content = take k m.content }

-- `Message(role=..., content=...)`, which has no tool calls.
abbrev pub cut_message : ℕ → Message → Message
cut_message k m = record {
  role = m.role;
  content = take k m.content;
  tool_calls = [];
  tool_call_id = none;
}

-- The `while` loop; `none` when the fuel runs out.
unfoldable pub search_prefix : ℕ → (ℕ → Bool) → ℕ → ℕ → Option ℕ
search_prefix zero fits low high = none
search_prefix (suc fuel) fits low high =
    let mid = (low + high + 1) / 2 in
    let longer = search_prefix fuel fits mid high in
    let shorter = search_prefix fuel fits low (mid - 1) in
    if ltb low high then (if fits mid then longer else shorter) else some low

abbrev pub reserve_of : Option ℕ → ℕ
reserve_of none = 512
reserve_of (some max_tokens) = max_tokens

abbrev pub within : (List Message → ℕ) → ℕ → Option ℕ → List Message → Bool
within count budget max_tokens messages = leb (count messages + reserve_of max_tokens) budget

-- Whether the request fits when the message at `i` keeps `k` characters.
abbrev pub fits_at : (List Message → ℕ) → ℕ → Option ℕ → ℕ → List Message → ℕ → Bool
fits_at count budget max_tokens i messages k =
    within count budget max_tokens (change_at (cut_content k) i messages)

abbrev pub cut_at : ℕ → List Message → Option ℕ → Option (List Message)
cut_at i messages none = none
cut_at i messages (some k) = some (change_at (cut_message k) i messages)

-- `none` is the ValueError of `max` over no messages.
unfoldable pub shorten : (List Message → ℕ) → ℕ → Option ℕ → List Message → Option (List Message)
unfolding longest_from change_at content_length search_prefix
shorten count budget max_tokens [] = none
shorten count budget max_tokens (m ∷ messages) =
    let i = longest_from 0 (length m.content) 1 messages in
    let size = content_length i (m ∷ messages) in
    cut_at i (m ∷ messages)
      (search_prefix (suc size) (fits_at count budget max_tokens i (m ∷ messages)) 0 size)

unfoldable pub fit_to_budget :
    (List Message → ℕ) → List Message → Option ℕ → Option ℕ → Option (List Message)
unfolding shorten
fit_to_budget count messages none max_tokens = some messages
fit_to_budget count messages (some budget) max_tokens =
    if within count budget max_tokens messages
    then some messages
    else shorten count budget max_tokens messages
