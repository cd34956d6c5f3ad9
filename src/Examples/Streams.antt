-- ===== src/Examples/Streams.antt =====
-- A streamed turn.
use ai_powered_research_work.Prelude.{ℕ, ◌≡◌, Option, some, List, [], ◌∷◌, Text, codes, length}
use ai_powered_research_work.Streaming.Machine.{CitationStream, Mode, concat, fresh, text}
use ai_powered_research_work.Streaming.Loop.{Ledger, stream_all}
use ai_powered_research_work.Streaming.Turn.{stream_all_lem}

abbrev accepts_length : Text → Option ℕ
accepts_length q = some (length q)

abbrev IsLength : Text → ℕ → Type 0
IsLength q c = some (length q) ≡ some c

abbrev cited_deltas : List ((Text → Option ℕ) × Text)
cited_deltas = (accepts_length, codes "as <cite>they") ∷ (accepts_length, codes " say</cite>.") ∷ []

stream_all-example :
    (t : CitationStream ℕ) × (pieces : List Text) × (stream_all cited_deltas fresh
      ≡ some (t, pieces))
    × (text t ≡ concat pieces)
    × Ledger IsLength pieces t.citations
    × (t.mode ≡ Mode.prose)
    × (t.buf ≡ [])
stream_all-example = stream_all_lem IsLength cited_deltas (λ q c h. h, (λ q c h. h, tt))
