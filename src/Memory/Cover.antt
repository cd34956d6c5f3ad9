-- ===== src/Memory/Cover.antt =====
-- The spans of `split_span` of backend/memory/chunking.py against the text.
use ai_powered_research_work.Prelude.{
  ℕ, zero, suc, ◌+◌, ◌-◌, ◌≤◌, ◌<◌, ◌≡◌, refl, subst, ◌⊎◌, inl, inr, min, max, true, false, ◌&&◌,
  Option, none, some, List, [], ◌∷◌, arith, Text, length, get_elem?, ltb, leb, lt→ltb, ltb→lt, ◌==◌,
  if◌then◌else◌, Bool-cases,
}
use ai_powered_research_work.Memory.Chunking.{
  later_or, break_at, rfind_space, span_end, cons_span, split_from, split_span,
}

-- A span that is not empty, within the budget, and broken at a space unless the budget or the text
-- ends there.
pub record IsChunk (budget : ℕ) (text : Text) (a b : ℕ) : Type 0 where
  pub nonempty : a < b
  pub in_budget : b ≤ a + budget
  pub at_break : (b ≡ min (a + budget) (length text)) ⊎ (get_elem? text b ≡ some 32)

-- Chunks from `a` to the end of the text: each next one starts later, and not behind a gap.
pub data Covers (budget : ℕ) (text : Text) : ℕ → List (ℕ × ℕ) → Type 0 where
  last : {a b : ℕ} → IsChunk budget text a b → b ≡ length text → Covers budget text a ((a, b) ∷ [])
  more :
      {a b c : ℕ} {r : List (ℕ × ℕ)}
      → IsChunk budget text a b
      → b < length text
      → a < c
      → c ≤ b
      → Covers budget text c r
      → Covers budget text a ((a, b) ∷ r)

-- What `rfind` returns is the index of a space in the range.
abbrev FoundSpace : ℕ → ℕ → ℕ → Text → Option ℕ → Type 0
FoundSpace i start end t none = Unit
FoundSpace i start end t (some k) =
    (i ≤ k) × (start ≤ k) × (k < end) × (get_elem? t (k - i) ≡ some 32)

FoundSpace-later :
    (i start end c : ℕ) (t : Text) (k : ℕ)
    → FoundSpace (i + 1) start end t (some k)
    → FoundSpace i start end (c ∷ t) (some k)
FoundSpace-later i start end c t k (a, b, d, e) =
    let s : k - i ≡ suc (k - (i + 1)) = omega arith in (omega arith, b, d, rw (s, e))

FoundSpace-later_or :
    (i start end c : ℕ) (t : Text) (r : Option ℕ)
    → FoundSpace (i + 1) start end t r
    → FoundSpace i start end
        (c ∷ t)
        (later_or r (if c == 32 && (leb start i && ltb i end) then some i else none))
FoundSpace-later_or i start end c t (some k) f = FoundSpace-later i start end c t k f
FoundSpace-later_or i start end c t none f =
    elim (Bool-cases (c == 32 && (leb start i && ltb i end))) [
      | inr e ↦ rw e tt
      | inl e ↦
          let z : i - i ≡ 0 = omega arith in
          let space : c ≡ 32 = ground arith in
          rw e (omega arith, ground arith, ground arith, rw (z, space))
    ]

rfind_space-FoundSpace :
    (i start end : ℕ) (t : Text) → FoundSpace i start end t (rfind_space i start end t)
unfolding rfind_space
rfind_space-FoundSpace i start end [] = tt
rfind_space-FoundSpace i start end (c ∷ t) =
    FoundSpace-later_or i start end c t (rfind_space (i + 1) start end t)
      (rfind_space-FoundSpace (i + 1) start end t)

IsChunkTo : ℕ → Text → ℕ → ℕ → Type 0
IsChunkTo budget text start end = IsChunk budget text start end × (end ≤ length text)

full_chunk :
    (budget : ℕ) (text : Text) (start : ℕ)
    → 0 < budget
    → start < length text
    → IsChunkTo budget text start (min (start + budget) (length text))
unfolding IsChunkTo
full_chunk budget text start p l =
    (record { nonempty = omega arith; in_budget = omega arith; at_break = inl refl }, omega arith)

break_chunk :
    (budget : ℕ) (text : Text) (start : ℕ) (r : Option ℕ)
    → 0 < budget
    → start < length text
    → FoundSpace 0 start (min (start + budget) (length text)) text r
    → IsChunkTo budget text start (break_at start (min (start + budget) (length text)) r)
unfolding IsChunkTo
break_chunk budget text start none p l f = full_chunk budget text start p l
break_chunk budget text start (some k) p l (a, b, c, e) = elim (Bool-cases (ltb start k)) [
  | inr no_room ↦ rw no_room (full_chunk budget text start p l)
  | inl room ↦
      let z : k - 0 ≡ k = omega arith in
      rw room (
        record {
          nonempty = ltb→lt start k room;
          in_budget = omega arith;
          at_break = inr (rw z at e);
        },
        omega arith,
      )
]

span_end-IsChunk :
    (budget : ℕ) (text : Text) (start : ℕ)
    → 0 < budget
    → start < length text
    → IsChunkTo budget text start (span_end budget (length text) text start)
unfolding span_end
span_end-IsChunk budget text start p l =
    let end = min (start + budget) (length text) in
    elim (Bool-cases (ltb end (length text))) [
      | inl inner ↦
          rw inner (break_chunk budget text start _ p l (rfind_space-FoundSpace 0 start end text))
      | inr outer ↦ rw outer (full_chunk budget text start p l)
    ]

split_from_lem :
    (fuel budget overlap : ℕ) (text : Text) (start : ℕ)
    → 0 < budget
    → start < length text
    → length text < start + fuel
    → (spans : List (ℕ × ℕ)) × (split_from fuel budget overlap (length text) text start
        ≡ some spans)
      × Covers budget text start spans
unfolding split_from IsChunkTo
split_from_lem zero budget overlap text start p l f = absurd (omega arith)
split_from_lem (suc fuel) budget overlap text start p l f =
    let end = span_end budget (length text) text start in
    let (chunk, inside) = span_end-IsChunk budget text start p l in
    let run = lt→ltb start (length text) l in
    elim (Bool-cases (leb (length text) end)) [
      | inl stop ↦ ((start, end) ∷ [], rw (run, stop), last chunk (ground arith))
      | inr on ↦
          let next = max (end - overlap) (start + 1) in
          let short : end < length text = ground arith in
          let (r, e, c) =
            split_from_lem fuel budget overlap text next p (omega (arith, chunk.nonempty))
              (omega arith) in
          (
            (start, end) ∷ r,
            rw (run, on, e),
            more chunk short (omega arith) (omega (arith, chunk.nonempty)) c,
          )
    ]

-- For every text that is not empty, every positive budget and every overlap, `split_span` returns
-- spans that cover the text from 0 to its end, each within the budget.
pub split_span_lem :
    (text : Text) (budget overlap : ℕ)
    → 0 < budget
    → 0 < length text
    → (spans : List (ℕ × ℕ)) × (split_span text budget overlap ≡ some spans)
      × Covers budget text 0 spans
unfolding split_span
split_span_lem text budget overlap p l =
    let nonempty : (length text == 0) ≡ false = ground arith in
    elim (Bool-cases (leb (length text) budget)) [
      | inl short ↦ (
        (0, length text) ∷ [],
        rw (nonempty, short),
        last (record { nonempty = l; in_budget = ground arith; at_break = inl (ground arith) })
            refl,
      )
      | inr long ↦
          let (spans, e, c) =
            split_from_lem (suc (length text)) budget overlap text 0 p l (omega arith) in
          (spans, rw (nonempty, long, e), c)
    ]

-- Where the budget ends before the text and the last space in the reach of a span lies after the
-- start, at most the overlap and one beyond it, the span ends at that space and the loop goes on
-- one character after its start.
pub split_from-crawls :
    (fuel budget overlap space : ℕ) (text : Text) (start : ℕ)
    → start + budget < length text
    → rfind_space 0 start (start + budget) text ≡ some space
    → start < space
    → space ≤ start + overlap + 1
    → split_from (suc fuel) budget overlap (length text) text start
      ≡ cons_span (start, space) (split_from fuel budget overlap (length text) text (start + 1))
unfolding split_from span_end
split_from-crawls fuel budget overlap space text start reach found ahead near =
    let n = length text in
    let m : min (start + budget) n ≡ start + budget = omega arith in
    let inner = lt→ltb (start + budget) n reach in
    let taken = lt→ltb start space ahead in
    let run : ltb start n ≡ true = lt→ltb start n (omega arith) in
    let says =
      subst (FoundSpace 0 start (start + budget) text) found
        (rfind_space-FoundSpace 0 start (start + budget) text) in
    let on : leb n space ≡ false = not_leb n space (omega (arith, says.2)) in
    let next : max (space - overlap) (start + 1) ≡ start + 1 = omega arith in
    rw (m, inner, found, taken, run, on, next)
  where
    not_leb : (a b : ℕ) → b < a → leb a b ≡ false
    not_leb a b h = ground arith
