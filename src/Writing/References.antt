-- ===== src/Writing/References.antt =====
-- The references of a project, of backend/writing/references.py. `lower` is `str.lower`, of which
-- the title word, whose letters are ASCII, needs the ASCII part only; `none` of `cite_key_base` is
-- the IndexError of an author without a word. The suffix of a key is a code point: its loop is
-- modelled below the limit of `chr`.
use ai_powered_research_work.Prelude.{
  ℕ, zero, suc, ◌+◌, Bool, ◌&&◌, ◌||◌, Option, none, some, List, [], ◌∷◌, ◌++◌, Text, codes, leb,
  ◌==◌, if◌then◌else◌, length, keep, any, starts_with, find_first, cons_some,
}
use ai_powered_research_work.Prelude.Decimal.{decimal}
use ai_powered_research_work.Prelude.Fresh.{first_free}
use ai_powered_research_work.Provenance.Normalize.{is_space}
use ai_powered_research_work.Papers.CanonicalId.{lower_char}
use ai_powered_research_work.Writing.Models.{Paper, Reference}

abbrev pub is_lower_letter : ℕ → Bool
is_lower_letter c = leb 97 c && leb c 122

abbrev pub is_letter : ℕ → Bool
is_letter c = is_lower_letter c || (leb 65 c && leb c 90)

-- The last of the words of `split()`: `word` is the one that is being read, `last` the one before.
unfoldable pub last_word_from : Option Text → Text → Text → Option Text
last_word_from last [] [] = last
last_word_from last (w ∷ word) [] = some (w ∷ word)
last_word_from last word (c ∷ t) =
    let last' : Option Text = elim word [ [] ↦ last | w ∷ ws ↦ some (w ∷ ws) ] in
    if is_space c then last_word_from last' [] t else last_word_from last (word ++ c ∷ []) t

-- `_NON_ALPHA.sub("", word.lower())`
abbrev pub surname_of : (Text → Text) → Text → Text
surname_of lower word = keep is_lower_letter (lower word)

unfoldable pub surname : (Text → Text) → List Text → Option Text
unfolding last_word_from
surname lower [] = some (codes "anon")
surname lower (author ∷ authors) = elim (last_word_from none [] author) [
  | none ↦ none
  | some word ↦ some (surname_of lower word)
]

-- `_TITLE_WORD.search(title)`, lower-cased: the first run of at least four letters.
unfoldable pub title_word_from : Text → Text → Text
unfolding lower_char
title_word_from word [] = if leb 4 (length word) then word else codes "paper"
title_word_from word (c ∷ t) =
    if is_letter c
    then title_word_from (word ++ lower_char c ∷ []) t
    else if leb 4 (length word)
    then word
    else title_word_from [] t

-- `year or ''`
unfoldable pub year_text : Option ℕ → Text
year_text none = []
year_text (some zero) = []
year_text (some (suc y)) = decimal (suc y)

abbrev pub join_base : Text → Option ℕ → Option Text → Option Text
join_base title year none = none
join_base title year (some name) = some (name ++ year_text year ++ title_word_from [] title)

unfoldable pub cite_key_base : (Text → Text) → Text → List Text → Option ℕ → Option Text
unfolding surname year_text title_word_from
cite_key_base lower title authors year = join_base title year (surname lower authors)

-- The keys that the loop tries: the base, then the base with a suffix from "a" on.
unfoldable pub key_candidate : Text → ℕ → Text
key_candidate base zero = base
key_candidate base (suc j) = base ++ (97 + j) ∷ []

abbrev pub free_key : Text → List Text → Option Text
free_key base used = first_free (suc (length used)) (key_candidate base) used 0

abbrev pub reference_of : Paper → Text → Reference
reference_of paper key = record {
  paper_id = paper.id;
  cite_key = key;
  title = paper.title;
  authors = paper.authors;
  year = paper.year;
}

abbrev pub key_for : Option Text → List Text → Option Text
key_for none used = none
key_for (some base) used = free_key base used

-- The key of a paper when `used_keys` are taken.
abbrev pub key_of : (Text → Text) → Paper → List Text → Option Text
key_of lower paper used = key_for (cite_key_base lower paper.title paper.authors paper.year) used

abbrev pub put_reference :
    Paper → Option Text → (Text → Option (List Reference)) → Option (List Reference)
put_reference paper none later = none
put_reference paper (some key) later = cons_some (reference_of paper key) (later key)

-- The loop of `list_references` over the papers in title order.
unfoldable pub references_from : (Text → Text) → List Paper → List Text → Option (List Reference)
unfolding cite_key_base key_candidate first_free
references_from lower [] used = some []
references_from lower (paper ∷ papers) used =
    put_reference paper (key_of lower paper used) (λ key. references_from lower papers (key ∷ used))

abbrev pub list_references : (Text → Text) → List Paper → Option (List Reference)
list_references lower papers = references_from lower papers []

-- `needle in haystack`
unfoldable pub contains : Text → Text → Bool
contains needle [] = starts_with needle []
contains needle (c ∷ t) = starts_with needle (c ∷ t) || contains needle t

abbrev pub offers : (Text → Text) → Text → Reference → Bool
offers lower needle ref =
    contains needle (lower ref.cite_key)
    || contains needle (lower ref.title)
    || any (λ author. contains needle (lower author)) ref.authors

unfoldable pub autocomplete_citations : (Text → Text) → List Reference → Text → List Reference
unfolding contains
autocomplete_citations lower references [] = references
autocomplete_citations lower references (c ∷ prefix) =
    keep (offers lower (lower (c ∷ prefix))) references

-- `separator.join(parts)`
unfoldable pub join : Text → List Text → Text
join separator [] = []
join separator (part ∷ []) = part
join separator (part ∷ next ∷ parts) = part ++ separator ++ join separator (next ∷ parts)

abbrev author_field : List Text → List Text
author_field [] = []
author_field (a ∷ authors) =
    (codes "  author = {" ++ join (codes " and ") (a ∷ authors) ++ codes "}") ∷ []

abbrev year_field : Option ℕ → List Text
year_field none = []
year_field (some zero) = []
year_field (some (suc y)) = (codes "  year = {" ++ decimal (suc y) ++ codes "}") ∷ []

abbrev url_field : Option Text → List Text
url_field none = []
url_field (some []) = []
url_field (some (c ∷ url)) = (codes "  howpublished = {\\url{" ++ (c ∷ url) ++ codes "}}") ∷ []

abbrev bibtex_entry : Reference → Paper → Text
bibtex_entry ref paper =
    codes "@misc{"
    ++ ref.cite_key
    ++ codes ",\n"
    ++ join (codes ",\n") (
        (codes "  title = {" ++ ref.title ++ codes "}") ∷ author_field ref.authors
        ++ year_field ref.year
        ++ url_field paper.source_url)
    ++ codes "\n}"

abbrev bibtex_entries : List Reference → List Paper → Option (List Text)
bibtex_entries [] papers = some []
bibtex_entries (ref ∷ refs) papers = elim (find_first (λ p. Paper.id p == ref.paper_id) papers) [
  | none ↦ none
  | some paper ↦ cons_some (bibtex_entry ref paper) (bibtex_entries refs papers)
]

-- `format_bibtex`, `none` the KeyError of a reference without its paper.
unfoldable pub format_bibtex : List Reference → List Paper → Option Text
unfolding join
format_bibtex refs papers = elim (bibtex_entries refs papers) [
  | none ↦ none
  | some entries ↦ some (join (codes "\n\n") entries)
]
