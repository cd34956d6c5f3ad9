-- ===== src/Writing/Citations.antt =====
-- The missing and unsupported citations of a document, of backend/writing/citation_check.py. Its
-- regular expressions are scans: a scan passes over what a match has taken. The reply of the model
-- is an argument, `none` for the errors that the code catches.
use ai_powered_research_work.Prelude.{
  ℕ, zero, suc, ◌+◌, ◌≡◌, refl, Bool, ◌&&◌, not, Option, none, some, List, [], ◌∷◌, ◌++◌, map, Text,
  codes, is_empty, ◌==◌, if◌then◌else◌, length, take, drop, keep, starts_with, cons_some,
}
use ai_powered_research_work.Prelude.Fresh.{mem_text}
use ai_powered_research_work.Provenance.Normalize.{is_space}
use ai_powered_research_work.Papers.CanonicalId.{strip}
use ai_powered_research_work.Writing.Models.{missing, unsupported, CitationFinding}
use ai_powered_research_work.Writing.References.{is_letter, contains}

-- The characters before the first `}`, `none` when there is none.
unfoldable pub until_brace : Text → Option Text
until_brace [] = none
until_brace (c ∷ t) = if c == 125 then some [] else cons_some c (until_brace t)

abbrev pub cite_open : Text
cite_open = codes "\\cite{"

-- The group of `_CITE_KEY` matched at the start of a text.
unfoldable pub cite_at : Text → Option Text
unfolding until_brace
cite_at t = if starts_with cite_open t then until_brace (drop 6 t) else none

-- `_CITE_KEY.finditer`: the groups of the matches; `n` characters of a match are left to pass.
unfoldable pub cite_groups : ℕ → Text → List Text
unfolding cite_at
cite_groups n [] = []
cite_groups (suc n) (c ∷ t) = cite_groups n t
cite_groups zero (c ∷ t) = elim (cite_at (c ∷ t)) [
  | none ↦ cite_groups 0 t
  | some group ↦ group ∷ cite_groups (length group + 6) t
]

abbrev pub cons_first : ℕ → List Text → List Text
cons_first c [] = (c ∷ []) ∷ []
cons_first c (part ∷ parts) = (c ∷ part) ∷ parts

-- `split(",")`
unfoldable pub split_commas : Text → List Text
split_commas [] = [] ∷ []
split_commas (c ∷ t) = if c == 44 then [] ∷ split_commas t else cons_first c (split_commas t)

-- `match.group(0)`
abbrev pub cite_span : Text → Text
cite_span group = cite_open ++ (group ++ codes "}")

abbrev pub missing_finding : Text → Text → CitationFinding
missing_finding group key = record {
  kind = missing;
  span = cite_span group;
  note = some (codes "no reference named '" ++ key ++ codes "' in this project's library");
}

-- The findings of the keys of one match.
unfoldable pub group_findings : Text → List Text → List Text → List CitationFinding
unfolding strip
group_findings group [] known = []
group_findings group (part ∷ parts) known =
    let key = strip part in
    let rest = group_findings group parts known in
    if not (is_empty key) && not (mem_text key known)
    then missing_finding group key ∷ rest
    else rest

unfoldable pub groups_findings : List Text → List Text → List CitationFinding
unfolding group_findings split_commas
groups_findings [] known = []
groups_findings (group ∷ groups) known =
    group_findings group (split_commas group) known ++ groups_findings groups known

unfoldable pub find_missing_citations : Text → List Text → List CitationFinding
unfolding groups_findings cite_groups
find_missing_citations tex known = groups_findings (cite_groups 0 tex) known

unfoldable pub letters : Text → ℕ
letters [] = 0
letters (c ∷ t) = if is_letter c then suc (letters t) else 0

-- What the optional group of `_LATEX_COMMAND` takes.
unfoldable pub brace_group : Text → ℕ
unfolding until_brace
brace_group [] = 0
brace_group (c ∷ t) =
    if c == 123
    then elim (until_brace t) [ none ↦ 0 | some group ↦ suc (suc (length group)) ]
    else 0

-- `_LATEX_COMMAND` behind its backslash: how much it takes, 0 when it does not match.
unfoldable pub command_len : Text → ℕ
unfolding letters brace_group
command_len t = if letters t == 0 then 0 else letters t + brace_group (drop (letters t) t)

unfoldable pub strip_latex_from : ℕ → Text → Text
unfolding command_len
strip_latex_from n [] = []
strip_latex_from (suc n) (c ∷ t) = strip_latex_from n t
strip_latex_from zero (c ∷ t) =
    if c == 92 && not (command_len t == 0)
    then 32 ∷ strip_latex_from (command_len t) t
    else c ∷ strip_latex_from 0 t

abbrev pub strip_latex : Text → Text
strip_latex tex = strip_latex_from 0 tex

abbrev pub unsupported_finding : Text → CitationFinding
unsupported_finding sentence = record { kind = unsupported; span = sentence; note = none }

abbrev pub occurs : Text → Text → Bool
occurs tex sentence = not (is_empty sentence) && contains sentence tex

abbrev pub reply_findings : Text → Option (List Text) → List CitationFinding
reply_findings tex none = []
reply_findings tex (some sentences) = map unsupported_finding (keep (occurs tex) sentences)

unfoldable pub find_unsupported_claims : (Text → Option (List Text)) → Text → List CitationFinding
unfolding strip_latex_from strip contains
find_unsupported_claims complete tex =
    let plain = take 20000 (strip_latex tex) in
    if is_empty (strip plain) then [] else reply_findings tex (complete plain)

unfoldable pub check_citations :
    (Text → Option (List Text)) → Text → List Text → List CitationFinding
unfolding find_missing_citations find_unsupported_claims
check_citations complete tex known =
    find_missing_citations tex known ++ find_unsupported_claims complete tex

check_test :
    check_citations
      (λ plain. some (codes "So." ∷ codes "No" ∷ []))
      (codes "So. \\cite{a, b}\\cite{ }")
      (codes "a" ∷ [])
    ≡ missing_finding (codes "a, b") (codes "b") ∷ unsupported_finding (codes "So.") ∷ []
unfolding check_citations strip is_space
check_test = refl
