-- ===== src/Harness/Compaction/Window.antt =====
-- What a compaction of backend/harness/compaction.py leaves of the history of a conversation.
use ai_powered_research_work.Prelude.{
  ℕ, zero, suc, ◌-◌, ◌≡◌, ◌≤◌, ◌<◌, refl, sym, ap, ◌∙◌, ◌⊎◌, inl, inr, Bool, true, false, Option,
  none, some, List, [], ◌∷◌, ◌++◌, map, arith, Text, length, length-drop, take, drop,
  take-append-drop, keep, leb, ltb, ◌==◌, Bool-cases, Option-cases,
}
use ai_powered_research_work.Prelude.Assoc.{Assoc, lookup, insert, lookup-insert}
use ai_powered_research_work.Harness.Models.{Message}
use ai_powered_research_work.Harness.Resume.{MessageRow}
use ai_powered_research_work.Harness.Compaction.{
  Conversation, is_spoken, message_of, rows_of, after_seq, past_watermark, prefixed, spoken,
  history_of, history, seq_or_zero, last_seq, turns_text, summarised, maybe_compact,
}

-- The rows stand in the order of `seq`, all above a bound.
abbrev pub IsAscending : ℕ → List MessageRow → Type 0
IsAscending n [] = Unit
IsAscending n (row ∷ rows) = (n < row.seq) × IsAscending row.seq rows

IsAscending-weaken :
    (m n : ℕ) (rows : List MessageRow) → m ≤ n → IsAscending n rows → IsAscending m rows
IsAscending-weaken m n [] le h = tt
IsAscending-weaken m n (row ∷ rows) le h = (omega (arith, le, h.0), h.1)

after_seq_all : (n : ℕ) (rows : List MessageRow) → IsAscending n rows → after_seq n rows ≡ rows
after_seq_all n [] h = refl
after_seq_all n (row ∷ rows) h =
    let rest = after_seq_all n rows (IsAscending-weaken n row.seq rows (omega (arith, h.0)) h.1) in
    ground (arith, h.0, rest)

keep-IsAscending :
    (p : MessageRow → Bool) (n : ℕ) (rows : List MessageRow)
    → IsAscending n rows
    → IsAscending n (keep p rows)
keep-IsAscending p n [] h = tt
keep-IsAscending p n (row ∷ rows) h = elim (Bool-cases (p row)) [
  | inl e ↦ rw e (h.0, keep-IsAscending p row.seq rows h.1)
  | inr e ↦
      rw e (keep-IsAscending p n rows (IsAscending-weaken n row.seq rows (omega (arith, h.0)) h.1))
]

after_seq-IsAscending :
    (n m : ℕ) (rows : List MessageRow) → IsAscending m rows → IsAscending n (after_seq n rows)
after_seq-IsAscending n m [] h = tt
after_seq-IsAscending n m (row ∷ rows) h = elim (Bool-cases (ltb n row.seq)) [
  | inl e ↦ rw e (ground (arith, e), keep-IsAscending (λ r. ltb n r.seq) row.seq rows h.1)
  | inr e ↦ rw e (after_seq-IsAscending n row.seq rows h.1)
]

last_seq-ge : (n k : ℕ) (rows : List MessageRow) → IsAscending n rows → n ≤ last_seq n (take k rows)
last_seq-ge n zero rows h = omega arith
last_seq-ge n (suc k) [] h = omega arith
last_seq-ge n (suc k) (row ∷ rows) h = omega (arith, h.0, last_seq-ge row.seq k rows h.1)

last_seq-above :
    (n k : ℕ) (rows : List MessageRow)
    → 0 < k
    → 0 < length rows
    → IsAscending n rows
    → n ≤ last_seq 0 (take k rows)
last_seq-above n zero rows k h a = ground arith
last_seq-above n (suc k) [] _ h a = ground arith
last_seq-above n (suc k) (row ∷ rows) _ h a = omega (arith, a.0, last_seq-ge row.seq k rows a.1)

after_last :
    (n k : ℕ) (rows : List MessageRow)
    → IsAscending n rows
    → after_seq (last_seq n (take k rows)) rows ≡ drop k rows
after_last n zero rows h = after_seq_all n rows h
after_last n (suc k) [] h = refl
after_last n (suc k) (row ∷ rows) h =
    ground (arith, last_seq-ge row.seq k rows h.1, after_last row.seq k rows h.1)

after_seq-spoken :
    (n m : ℕ) (rows : List MessageRow)
    → n ≤ m
    → after_seq m (spoken (after_seq n rows)) ≡ spoken (after_seq m rows)
after_seq-spoken n m [] le = refl
after_seq-spoken n m (row ∷ rows) le =
    let rest = after_seq-spoken n m rows le in
    elim (Bool-cases (is_spoken row)) [
      | inl e ↦ ground (arith, e, le, rest)
      | inr e ↦ ground (arith, e, le, rest)
    ]

past_watermark_lem :
    (mark : Option ℕ) (rows : List MessageRow)
    → IsAscending 0 rows
    → past_watermark mark rows ≡ after_seq (seq_or_zero mark) rows
past_watermark_lem none rows h = sym (after_seq_all 0 rows h)
past_watermark_lem (some zero) rows h = sym (after_seq_all 0 rows h)
past_watermark_lem (some (suc seq)) rows h = ground arith

module _ (summarize : Option Text → Text → Option Text) (id : ℕ) (messages : List MessageRow) where
  -- How a compaction that wrote a summary changed a conversation.
  pub record Compacted (conversations later : Assoc Conversation) : Type 0 where
    pub conversation : Conversation
    pub covered : List MessageRow
    pub kept : List MessageRow
    pub text : Text
    pub found : lookup id conversations ≡ some conversation
    -- the history before: the old summary, then the rows covered and the rows kept
    pub before :
        history id conversations messages
        ≡ prefixed conversation.summary (map message_of (covered ++ kept))
    pub six : length kept ≡ 6
    pub asked : summarize conversation.summary (turns_text covered) ≡ some text
    -- the history after: the new summary, then the rows kept
    pub shown : history id later messages ≡ prefixed (some text) (map message_of kept)
    pub others : (j : ℕ) → (id == j) ≡ false → lookup j later ≡ lookup j conversations

  abbrev window : Conversation → List MessageRow
  window c = spoken (after_seq (seq_or_zero c.summarised_through_seq) (rows_of id messages))

  abbrev covered_of : Conversation → List MessageRow
  covered_of c = take (length (window c) - 6) (window c)

  history-found :
      (conversations : Assoc Conversation) (c : Conversation)
      → IsAscending 0 (rows_of id messages)
      → lookup id conversations ≡ some c
      → history id conversations messages ≡ prefixed c.summary (map message_of (window c))
  unfolding history
  history-found conversations c a e =
      ap (λ found. history_of found (rows_of id messages)) e
      ∙ ap (λ rows. prefixed c.summary (map message_of (spoken rows)))
          (past_watermark_lem c.summarised_through_seq (rows_of id messages) a)

  -- The rows past the last one covered are those kept.
  kept_lem :
      (c : Conversation)
      → IsAscending 0 (rows_of id messages)
      → 6 < length (window c)
      → spoken (after_seq (last_seq 0 (covered_of c)) (rows_of id messages))
        ≡ drop (length (window c) - 6) (window c)
  kept_lem c a long =
      let mark = seq_or_zero c.summarised_through_seq in
      let k = length (window c) - 6 in
      let past = after_seq-IsAscending mark 0 (rows_of id messages) a in
      let ascending = keep-IsAscending is_spoken mark (after_seq mark (rows_of id messages)) past in
      sym (
        after_seq-spoken mark (last_seq 0 (covered_of c)) (rows_of id messages)
          (last_seq-above mark k (window c) (omega (arith, long)) (omega (arith, long)) ascending))
      ∙ after_last 0 k (window c) (IsAscending-weaken 0 mark (window c) (omega arith) ascending)

  compacted :
      (conversations : Assoc Conversation) (c : Conversation) (text : Text)
      → IsAscending 0 (rows_of id messages)
      → lookup id conversations ≡ some c
      → 6 < length (window c)
      → summarize c.summary (turns_text (covered_of c)) ≡ some text
      → Compacted conversations (summarised id conversations (covered_of c) (some text)).1
  compacted conversations c text a found long asked =
      let k = length (window c) - 6 in
      let changed : Conversation = record {
        summary = some text;
        summarised_through_seq = some (last_seq 0 (covered_of c));
      } in
      record {
        conversation = c;
        covered = covered_of c;
        kept = drop k (window c);
        text = text;
        found = found;
        before =
            history-found conversations c a found
            ∙ ap (λ rows. prefixed c.summary (map message_of rows))
                (sym (take-append-drop k (window c)));
        six = omega (arith, length-drop k (window c), long);
        asked = asked;
        shown =
            history-found (insert id changed conversations) changed a
              (ground (arith, lookup-insert id id changed conversations))
            ∙ ap (λ rows. prefixed (some text) (map message_of rows)) (kept_lem c a long);
        others = λ j ne. ground (arith, lookup-insert id j changed conversations);
      }

  module _ (count_tokens : List Message → ℕ) where
    -- When the rows of the conversation have ascending numbers from 1 on: a compaction changes
    -- nothing, or it was due, and then the history, which was the old summary, the rows covered and
    -- six rows more, is the new summary of what was covered and those six rows; no other
    -- conversation changes.
    pub maybe_compact_lem :
        (conversations : Assoc Conversation)
        → IsAscending 0 (rows_of id messages)
        → (maybe_compact count_tokens summarize id
              (history id conversations messages)
              conversations
              messages
            ≡ (false, conversations))
          ⊎ (7200 < count_tokens (history id conversations messages))
            × ((maybe_compact count_tokens summarize id
                  (history id conversations messages)
                  conversations
                  messages).0
                ≡ true)
            × Compacted conversations
                (maybe_compact count_tokens summarize id
                  (history id conversations messages)
                  conversations
                  messages).1
    unfolding maybe_compact
    maybe_compact_lem conversations a =
        elim (Bool-cases (leb (count_tokens (history id conversations messages)) 7200)) [
          | inl small ↦ inl (rw small refl)
          | inr big ↦ elim (Option-cases (lookup id conversations)) [
            | inl e ↦ inl (rw (big, e) refl)
            | inr (c, e) ↦ elim (Bool-cases (leb (length (window c)) 6)) [
              | inl short ↦ inl (rw (big, e, short) refl)
              | inr long ↦ elim (Option-cases (summarize c.summary (turns_text (covered_of c)))) [
                | inl failed ↦ inl (rw (big, e, long, failed) refl)
                | inr (text, asked) ↦ inr (
                  ground (arith, big),
                  rw (big, e, long, asked) refl,
                  rw (big, e, long, asked)
                      (compacted conversations c text a e (ground (arith, long)) asked),
                )
              ]
            ]
          ]
        ]
