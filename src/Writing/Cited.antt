-- ===== src/Writing/Cited.antt =====
-- What the citation check of backend/writing/citation_check.py finds in a document that is
-- written from prose and commands, and where its findings stand.
use ai_powered_research_work.Prelude.{
  ◌≤◌, ◌≡◌, refl, ap, sym, ◌∙◌, subst, inl, inr, Bool, true, not, ◌&&◌, some, List, [], ◌∷◌, ◌++◌,
  map, arith, append_assoc, Text, codes, is_empty, text_eq, text_eq_sound, length, All, All-append,
  All-map, keep, Bool-cases,
}
use ai_powered_research_work.Prelude.Fresh.{mem_text}
use ai_powered_research_work.Provenance.Normalize.{is_space}
use ai_powered_research_work.Writing.Models.{Paper, Reference, CitationFinding}
use ai_powered_research_work.Writing.References.{join, list_references}
use ai_powered_research_work.Writing.Keys.{IsPlain, IsNamed, keys_of, list_references_lem}
use ai_powered_research_work.Writing.Citations.{
  cite_groups, split_commas, cite_span, missing_finding, group_findings, groups_findings,
  find_missing_citations,
}
use ai_powered_research_work.Writing.Scans.{
  NoBrace, IsProse, IsKey, cite_groups-span, cite_groups-prose, split_commas-key, split_commas-keys,
  strip-key,
}

-- A piece of a document: prose, or a command with its keys.
pub data Piece : Type 0 where
  prose : Text → Piece
  cite : Text → List Text → Piece

abbrev pub group_of : Text → List Text → Text
group_of key keys = join (codes ",") (key ∷ keys)

abbrev pub render_piece : Piece → Text
render_piece (prose t) = t
render_piece (cite key keys) = cite_span (group_of key keys)

abbrev pub render : List Piece → Text
render [] = []
render (p ∷ ps) = render_piece p ++ render ps

abbrev pub IsPiece : Piece → Type 0
IsPiece (prose t) = IsProse t
IsPiece (cite key keys) = All IsKey (key ∷ keys)

abbrev pub is_missing : List Text → Text → Bool
is_missing known key = not (is_empty key) && not (mem_text key known)

abbrev pub piece_findings : List Text → Piece → List CitationFinding
piece_findings known (prose t) = []
piece_findings known (cite key keys) =
    map (missing_finding (group_of key keys)) (keep (is_missing known) (key ∷ keys))

-- The findings that the pieces call for.
abbrev pub expected : List Text → List Piece → List CitationFinding
expected known [] = []
expected known (p ∷ ps) = piece_findings known p ++ expected known ps

IsKey-NoBrace : (key : Text) → IsKey key → NoBrace key
IsKey-NoBrace key h = All-map key (λ c ok. ground arith) h

join-NoBrace :
    (key : Text) (keys : List Text) → All IsKey (key ∷ keys) → NoBrace (group_of key keys)
unfolding join
join-NoBrace key [] h = IsKey-NoBrace key h.0
join-NoBrace key (next ∷ keys) h =
    All-append _ (key ++ codes ",") _ (All-append _ key _ (IsKey-NoBrace key h.0) (refl, tt))
      (join-NoBrace next keys h.1)

split_commas-join :
    (key : Text) (keys : List Text)
    → All IsKey (key ∷ keys)
    → split_commas (group_of key keys) ≡ key ∷ keys
unfolding join
split_commas-join key [] h = split_commas-key key h.0
split_commas-join key (next ∷ keys) h =
    ap split_commas (append_assoc key (codes ",") (group_of next keys))
    ∙ (split_commas-keys key (group_of next keys) h.0
        ∙ ap (λ parts. key ∷ parts) (split_commas-join next keys h.1))

group_findings-keys :
    (group : Text) (keys known : List Text)
    → All IsKey keys
    → group_findings group keys known ≡ map (missing_finding group) (keep (is_missing known) keys)
unfolding group_findings
group_findings-keys group [] known h = refl
group_findings-keys group (key ∷ keys) known h = elim (Bool-cases (is_missing known key)) [
  | inl e ↦ rw (strip-key key h.0, e, group_findings-keys group keys known h.1) refl
  | inr e ↦ rw (strip-key key h.0, e, group_findings-keys group keys known h.1) refl
]

groups_findings-render :
    (pieces : List Piece) (known : List Text)
    → All IsPiece pieces
    → groups_findings (cite_groups 0 (render pieces)) known ≡ expected known pieces
unfolding groups_findings cite_groups
groups_findings-render [] known h = refl
groups_findings-render (prose t ∷ pieces) known h =
    rw (cite_groups-prose t (render pieces) h.0) (groups_findings-render pieces known h.1)
groups_findings-render (cite key keys ∷ pieces) known h =
    ap (λ groups. groups_findings groups known)
      (cite_groups-span (group_of key keys) (render pieces) (join-NoBrace key keys h.0))
    ∙ rw
        (
          split_commas-join key keys h.0,
          group_findings-keys (group_of key keys) (key ∷ keys) known h.0,
          groups_findings-render pieces known h.1,
        )
        refl

-- In a document made of prose without backslashes and `\\cite` commands whose keys have no commas,
-- closing braces or white space, the findings are those of the keys that are not known, in the
-- order of the commands and of the keys in each.
pub find_missing_citations-render :
    (pieces : List Piece) (known : List Text)
    → All IsPiece pieces
    → find_missing_citations (render pieces) known ≡ expected known pieces
unfolding find_missing_citations
find_missing_citations-render pieces known h = groups_findings-render pieces known h

-- Prose, or a command that cites known keys only.
abbrev pub CitesOnly : List Text → Piece → Type 0
CitesOnly known (prose t) = IsProse t
CitesOnly known (cite key keys) = All (λ k. mem_text k known ≡ true) (key ∷ keys)

mem-IsPlain :
    (k : Text) (known : List Text) → All IsPlain known → mem_text k known ≡ true → IsPlain k
mem-IsPlain k [] h m = absurd (ground arith)
mem-IsPlain k (j ∷ known) h m = elim (Bool-cases (text_eq k j)) [
  | inl e ↦ subst IsPlain (sym (text_eq_sound k j e)) h.0
  | inr e ↦ mem-IsPlain k known h.1 (rw e at m)
]

IsPlain-IsKey : (k : Text) → IsPlain k → IsKey k
unfolding is_space
IsPlain-IsKey k h = All-map k (λ c ok. ground arith) h

keep_none :
    (known keys : List Text)
    → All (λ k. mem_text k known ≡ true) keys
    → keep (is_missing known) keys ≡ []
keep_none known [] h = refl
keep_none known (k ∷ keys) h = ground (arith, h.0, keep_none known keys h.1)

expected-CitesOnly :
    (known : List Text) (pieces : List Piece)
    → All (CitesOnly known) pieces
    → expected known pieces ≡ []
expected-CitesOnly known [] h = refl
expected-CitesOnly known (prose t ∷ pieces) h = expected-CitesOnly known pieces h.1
expected-CitesOnly known (cite key keys ∷ pieces) h =
    rw (keep_none known (key ∷ keys) h.0) (expected-CitesOnly known pieces h.1)

CitesOnly-IsPiece :
    (known : List Text) → All IsPlain known → (p : Piece) → CitesOnly known p → IsPiece p
CitesOnly-IsPiece known plain (prose t) h = h
CitesOnly-IsPiece known plain (cite key keys) h =
    All-map (key ∷ keys) (λ k m. IsPlain-IsKey k (mem-IsPlain k known plain m)) h

-- When a project has at most 27 papers and the first author of each, where there is one, has a
-- word: the references are listed, and a document made of prose without backslashes and commands
-- that cite only their keys has no missing citation.
pub list_references-cited :
    (lower : Text → Text) (papers : List Paper)
    → All (λ paper. IsNamed (Paper.authors paper)) papers
    → length papers ≤ 27
    → (refs : List Reference) × (list_references lower papers ≡ some refs)
      × ((pieces : List Piece)
          → All (CitesOnly (keys_of refs)) pieces
          → find_missing_citations (render pieces) (keys_of refs) ≡ [])
list_references-cited lower papers named few =
    let (refs, listed, ids, distinct, plain) = list_references_lem lower papers named in
    (
      refs,
      listed,
      λ pieces h.
          find_missing_citations-render pieces (keys_of refs)
            (All-map pieces (λ p only. CitesOnly-IsPiece (keys_of refs) (plain few) p only) h)
          ∙ expected-CitesOnly (keys_of refs) pieces h,
    )
