-- ===== src/Memory/Rechunk.antt =====
-- What the chunk tables hold after a job of backend/memory/__init__.py.
use ai_powered_research_work.Prelude.{
  ℕ, zero, suc, ◌+◌, ◌-◌, ◌≤◌, ◌≡◌, refl, ap, sym, ◌∙◌, inl, inr, Bool, true, false, not, Option,
  none, some, List, [], ◌∷◌, ◌++◌, map, append-nil, arith, Text, is_empty, take, drop, drop-drop,
  length, length-take, keep, All, All-append, ◌==◌, Bool-cases, Option-cases,
}
use ai_powered_research_work.Prelude.Assoc.{lookup}
use ai_powered_research_work.Memory.Chunking.{split_span}
use ai_powered_research_work.Memory.Cover.{Covers, last, more, split_span_lem}
use ai_powered_research_work.Memory.Selection.{
  SourceType, paper_section, note, conversation_summary,
}
use ai_powered_research_work.Memory.Index.{
  Note, Conversation, Section, PaperContent, ProjectChunk, PaperChunk, Tables, slice, spans_of,
  is_abstract, rows_of, is_from, project_row, paper_row, chunk_note, chunk_conversation_summary,
  section_text, section_rows, sections_rows, chunk_paper_sections,
}

module _ {A : Type 0} where
  keep-append : (p : A → Bool) (xs ys : List A) → keep p (xs ++ ys) ≡ keep p xs ++ keep p ys
  keep-append p [] ys = refl
  keep-append p (x ∷ xs) ys = ground (arith, keep-append p xs ys)

  keep-keep-not : (p : A → Bool) (xs : List A) → keep p (keep (λ x. not (p x)) xs) ≡ []
  keep-keep-not p [] = refl
  keep-keep-not p (x ∷ xs) = ground (arith, keep-keep-not p xs)

  keep-keep : (p : A → Bool) (xs : List A) → keep p (keep p xs) ≡ keep p xs
  keep-keep p [] = refl
  keep-keep p (x ∷ xs) = ground (arith, keep-keep p xs)

  keep_all : (p : A → Bool) (xs : List A) → All (λ x. p x ≡ true) xs → keep p xs ≡ xs
  keep_all p [] h = refl
  keep_all p (x ∷ xs) h = ground (arith, h.0, keep_all p xs h.1)

  keep-not : (p : A → Bool) (xs : List A) → All (λ x. p x ≡ true) xs → keep (λ x. not (p x)) xs ≡ []
  keep-not p [] h = refl
  keep-not p (x ∷ xs) h = ground (arith, h.0, keep-not p xs h.1)

  take-nil : (n : ℕ) → take {A = A} n [] ≡ []
  take-nil zero = refl
  take-nil (suc n) = refl

  drop-take : (m n : ℕ) (xs : List A) → drop m (take n xs) ≡ take (n - m) (drop m xs)
  drop-take zero n xs = ap (λ k. take k xs) (omega arith)
  drop-take (suc m) zero xs = let none_left : zero - suc m ≡ 0 = omega arith in rw none_left refl
  drop-take (suc m) (suc n) [] = sym (take-nil (suc n - suc m))
  drop-take (suc m) (suc n) (x ∷ xs) =
      let one : suc n - suc m ≡ n - m = omega arith in rw one (drop-take m n xs)

  take-take : (m n : ℕ) (xs : List A) → m ≤ n → take m (take n xs) ≡ take m xs
  take-take zero n xs h = refl
  take-take (suc m) zero xs h = absurd (omega arith)
  take-take (suc m) (suc n) [] h = refl
  take-take (suc m) (suc n) (x ∷ xs) h = ap (λ l. x ∷ l) (take-take m n xs (omega arith))

-- A slice of a slice is a slice of the whole.
slice-slice :
    (text : Text) (a b s e : ℕ)
    → e ≤ length (slice text (a, b))
    → slice (slice text (a, b)) (s, e) ≡ slice text (a + s, a + e)
slice-slice text a b s e h =
    let inside : e ≤ b - a = omega (arith, h, length-take (b - a) (drop a text)) in
    let shift : (a + e) - (a + s) ≡ e - s = omega arith in
    rw
      (
        drop-take s (b - a) (drop a text),
        take-take (e - s) (b - a - s) (drop s (drop a text)) (omega arith),
        drop-drop a s text,
        shift,
      )
      refl

Covers-within :
    {budget : ℕ} {text : Text} {a : ℕ} {spans : List (ℕ × ℕ)}
    → Covers budget text a spans
    → All (λ span. span.1 ≤ length text) spans
Covers-within (last chunk e) = (omega arith, tt)
Covers-within (more chunk short later inside c) = (omega arith, Covers-within c)

spans_of-within : (text : Text) → All (λ span. span.1 ≤ length text) (spans_of text)
unfolding spans_of
spans_of-within text = elim (Bool-cases (length text == 0)) [
  | inl empty ↦ rw (split_span, empty) tt
  | inr filled ↦
      let (spans, e, c) = split_span_lem text 1600 200 (omega arith) (ground arith) in
      rw e (Covers-within c)
]

module _ {V : Type 0} where
  all_from :
      (project_id id : ℕ) (t : SourceType) (text : Text) (spans : List (ℕ × ℕ)) (vectors : List V)
      → All
          (λ chunk. is_from t id chunk ≡ true)
          (rows_of (project_row project_id t id text) spans vectors)
  all_from project_id id t text [] vectors = tt
  all_from project_id id t text (span ∷ spans) [] = tt
  all_from project_id id t text (span ∷ spans) (v ∷ vectors) =
      (ground arith, all_from project_id id t text spans vectors)

  -- After: of the source exactly these rows, of all others what was there.
  pub record Replaced (t : SourceType) (id : ℕ) (rows before after : List (ProjectChunk V))
      : Type 0 where
    pub own : keep (is_from t id) after ≡ rows
    pub others : keep (λ c. not (is_from t id c)) after ≡ keep (λ c. not (is_from t id c)) before

  replaced :
      (t : SourceType) (id : ℕ) (rows before : List (ProjectChunk V))
      → All (λ c. is_from t id c ≡ true) rows
      → Replaced t id rows before (keep (λ c. not (is_from t id c)) before ++ rows)
  replaced t id rows before h =
      let p = is_from t id in
      let left = keep (λ c. not (p c)) before in
      record {
        own = rw (keep-append p left rows, keep-keep-not p before, keep_all p rows h) refl;
        others =
            keep-append (λ c. not (p c)) left rows
            ∙ rw (keep-keep (λ c. not (p c)) before, keep-not p rows h) (append-nil left);
      }

module _ {V : Type 0} (embed : List Text → List V) where
  -- The rows of a text.
  abbrev pub text_rows : ℕ → SourceType → ℕ → Text → List (ProjectChunk V)
  text_rows project_id t id text =
      rows_of (project_row project_id t id text) (spans_of text)
        (embed (map (slice text) (spans_of text)))

  abbrev some_rows : ℕ → ℕ → Option Text → List (ProjectChunk V)
  some_rows id project_id none = []
  some_rows id project_id (some summary) = text_rows project_id conversation_summary id summary

  abbrev pub summary_rows : ℕ → Conversation → List (ProjectChunk V)
  summary_rows id c = some_rows id c.project_id c.summary

  -- After the job of a note with a body the table has for the note exactly the rows of its body,
  -- and for all other sources what it had.
  pub chunk_note-Replaced :
      (tables : Tables V) (id : ℕ) (n : Note)
      → lookup id tables.notes ≡ some n
      → is_empty n.body ≡ false
      → Replaced note id
          (text_rows n.project_id note id n.body)
          tables.project_chunks
          (Tables.project_chunks (chunk_note embed id tables))
  unfolding chunk_note
  chunk_note-Replaced tables id n found filled =
      rw (found, filled)
        (replaced note id (text_rows n.project_id note id n.body) tables.project_chunks (
          all_from n.project_id id note n.body (spans_of n.body)
            (embed (map (slice n.body) (spans_of n.body)))))

  -- After the job of a conversation the table has for it exactly the rows of its summary, none
  -- without one, and for all other sources what it had.
  pub chunk_conversation_summary-Replaced :
      (tables : Tables V) (id : ℕ) (c : Conversation)
      → lookup id tables.conversations ≡ some c
      → Replaced conversation_summary id
          (summary_rows id c)
          tables.project_chunks
          (Tables.project_chunks (chunk_conversation_summary embed id tables))
  unfolding chunk_conversation_summary
  chunk_conversation_summary-Replaced tables id c found = elim (Option-cases c.summary) [
    | inl e ↦
        rw (found, e)
          (record {
            own = keep-keep-not (is_from conversation_summary id) tables.project_chunks;
            others =
                keep-keep (λ chunk. not (is_from conversation_summary id chunk))
                  tables.project_chunks;
          })
    | inr (summary, e) ↦
        rw (found, e)
          (replaced conversation_summary id (text_rows c.project_id conversation_summary id summary)
            tables.project_chunks
            (all_from c.project_id id conversation_summary summary (spans_of summary)
              (embed (map (slice summary) (spans_of summary)))))
  ]

  -- The row's text is the text of the paper between its offsets.
  abbrev pub IsVerbatim : PaperContent → PaperChunk V → Type 0
  IsVerbatim content chunk =
      chunk.text_ ≡ slice content.full_text (chunk.char_start, chunk.char_end)

  rows-IsVerbatim :
      (paper_id : ℕ) (t : SourceType) (source_id : Text) (heading : Option Text)
      (content : PaperContent) (sec : Section) (spans : List (ℕ × ℕ)) (vectors : List V)
      → All (λ span. span.1 ≤ length (section_text content sec)) spans
      → All (IsVerbatim content) (
          rows_of
            (paper_row paper_id t source_id heading sec.char_start (section_text content sec))
            spans
            vectors)
  rows-IsVerbatim paper_id t source_id heading content sec [] vectors h = tt
  rows-IsVerbatim paper_id t source_id heading content sec (span ∷ spans) [] h = tt
  rows-IsVerbatim paper_id t source_id heading content sec (span ∷ spans) (v ∷ vectors) h = (
    slice-slice content.full_text sec.char_start sec.char_end span.0 span.1 h.0,
    rows-IsVerbatim paper_id t source_id heading content sec spans vectors h.1,
  )

  sections_rows-IsVerbatim :
      (paper_id : ℕ) (content : PaperContent) (sections : List Section)
      → All (IsVerbatim content) (sections_rows embed paper_id content sections)
  sections_rows-IsVerbatim paper_id content [] = tt
  sections_rows-IsVerbatim paper_id content (sec ∷ sections) =
      elim (Bool-cases (is_abstract sec.heading)) [
        | inl e ↦ rw e (sections_rows-IsVerbatim paper_id content sections)
        | inr e ↦ rw e (
            All-append _ (section_rows embed paper_id content sec) _
              (rows-IsVerbatim paper_id paper_section sec.section_id sec.heading content sec
                (spans_of (section_text content sec)) _
                (spans_of-within (section_text content sec)))
              (sections_rows-IsVerbatim paper_id content sections))
      ]

  -- The job of a paper's sections adds rows behind the ones there, and each row's text is the
  -- paper's text between the row's offsets.
  pub chunk_paper_sections-IsVerbatim :
      (tables : Tables V) (paper_id : ℕ) (content : PaperContent)
      → lookup paper_id tables.contents ≡ some content
      → (rows : List (PaperChunk V)) × (Tables.paper_chunks
            (chunk_paper_sections embed paper_id tables)
          ≡ tables.paper_chunks ++ rows)
        × All (IsVerbatim content) rows
  unfolding chunk_paper_sections
  chunk_paper_sections-IsVerbatim tables paper_id content found = (
    sections_rows embed paper_id content content.sections,
    rw found refl,
    sections_rows-IsVerbatim paper_id content content.sections,
  )
