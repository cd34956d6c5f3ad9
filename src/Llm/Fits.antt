-- ===== src/Llm/Fits.antt =====
-- What `_fit_to_budget` of backend/llm/__init__.py leaves of the messages.
use ai_powered_research_work.Prelude.{
  ℕ, zero, suc, ◌+◌, ◌-◌, ◌/◌, ◌≤◌, ◌<◌, ◌≡◌, refl, sym, ap, ◌∙◌, subst, ltb→lt, ◌⊎◌, inl, inr,
  Bool, true, false, Option, some, List, [], ◌∷◌, arith, length, ltb, Bool-cases,
}
use ai_powered_research_work.Harness.Models.{Message}
use ai_powered_research_work.Llm.Budget.{
  longest_from, change_at, content_length, cut_message, search_prefix, within, fits_at, shorten,
  fit_to_budget,
}

-- The length that a search from `low` to `high` stops at: it fits, where it is not the least, and
-- one more does not, where it is not the greatest.
pub record IsCut (fits : ℕ → Bool) (low high k : ℕ) : Type 0 where
  pub from_low : low ≤ k
  pub to_high : k ≤ high
  pub fitting : (k ≡ low) ⊎ (fits k ≡ true)
  pub longest : (k ≡ high) ⊎ (fits (suc k) ≡ false)

from_mid :
    (fits : ℕ → Bool) {low mid k : ℕ}
    → fits mid ≡ true
    → (k ≡ mid) ⊎ (fits k ≡ true)
    → (k ≡ low) ⊎ (fits k ≡ true)
from_mid fits g (inl e) = inr (rw e g)
from_mid fits g (inr f) = inr f

to_mid :
    (fits : ℕ → Bool) {high mid k : ℕ}
    → 0 < mid
    → fits mid ≡ false
    → (k ≡ mid - 1) ⊎ (fits (suc k) ≡ false)
    → (k ≡ high) ⊎ (fits (suc k) ≡ false)
to_mid fits {mid = mid} {k = k} p g (inl e) =
    let next : suc k ≡ mid = omega (arith, e) in inr (subst (λ n. fits n ≡ false) (sym next) g)
to_mid fits p g (inr f) = inr f

search_prefix-IsCut :
    (fuel : ℕ) (fits : ℕ → Bool) (low high : ℕ)
    → low ≤ high
    → high - low < fuel
    → (k : ℕ) × (search_prefix fuel fits low high ≡ some k) × IsCut fits low high k
unfolding search_prefix
search_prefix-IsCut zero fits low high h f = absurd (omega arith)
search_prefix-IsCut (suc fuel) fits low high h f =
    let mid = (low + high + 1) / 2 in
    elim (Bool-cases (ltb low high)) [
      | inr e ↦ (
        low,
        rw e refl,
        record {
          from_low = omega arith;
          to_high = h;
          fitting = inl refl;
          longest = inl (ground arith);
        },
      )
      | inl e ↦
          let less : low < high = ground arith in
          elim (Bool-cases (fits mid)) [
            | inl g ↦
                let (k, found, cut) =
                  search_prefix-IsCut fuel fits mid high (omega arith) (omega arith) in
                (
                  k,
                  rw (e, g) found,
                  record {
                    from_low = omega (arith, cut.from_low);
                    to_high = cut.to_high;
                    fitting = from_mid fits g cut.fitting;
                    longest = cut.longest;
                  },
                )
            | inr g ↦
                let (k, found, cut) =
                  search_prefix-IsCut fuel fits low (mid - 1) (omega arith) (omega arith) in
                (
                  k,
                  rw (e, g) found,
                  record {
                    from_low = cut.from_low;
                    to_high = omega (arith, cut.to_high);
                    fitting = cut.fitting;
                    longest = to_mid fits (omega arith) g cut.longest;
                  },
                )
          ]
    ]

-- The request after the cut: the messages as they were when they fit, and else the longest one cut.
abbrev pub IsFitted : (List Message → ℕ) → ℕ → Option ℕ → List Message → List Message → Type 0
IsFitted count budget max_tokens messages fitted =
    ((within count budget max_tokens messages ≡ true) × (fitted ≡ messages))
    ⊎ ((i : ℕ) × (k : ℕ) × (fitted ≡ change_at (cut_message k) i messages)
        × IsCut (fits_at count budget max_tokens i messages) 0 (content_length i messages) k
        × ((j : ℕ) → content_length j messages ≤ content_length i messages))

-- While the loop looks at `messages` from the index `i` on, `size` is the greatest length before.
record Scanned (best size i : ℕ) (messages all : List Message) : Type 0 where
  is_size : content_length best all ≡ size
  before : (j : ℕ) → j < i → content_length j all ≤ size
  behind : (j : ℕ) → content_length (i + j) all ≡ content_length j messages

first_behind :
    {best size i : ℕ} {m : Message} {messages all : List Message}
    → Scanned best size i (m ∷ messages) all
    → content_length i all ≡ length m.content
unfolding content_length
first_behind {i = i} {all = all} s =
    ap (λ n. content_length n all) (let e : i ≡ i + 0 = omega arith in e) ∙ s.behind 0

next_behind :
    {best size i : ℕ} {m : Message} {messages all : List Message}
    → Scanned best size i (m ∷ messages) all
    → (j : ℕ) → content_length (suc i + j) all ≡ content_length j messages
unfolding content_length
next_behind {i = i} {all = all} s j =
    ap (λ n. content_length n all) (let e : suc i + j ≡ i + suc j = omega arith in e)
    ∙ s.behind (suc j)

Below-suc :
    (all : List Message) {size i : ℕ}
    → content_length i all ≤ size
    → ((j : ℕ) → j < i → content_length j all ≤ size)
    → (j : ℕ) → j < suc i
    → content_length j all ≤ size
Below-suc all {size} {i} here before j h = elim (Bool-cases (ltb j i)) [
  | inl e ↦ before j (ground arith)
  | inr e ↦ let same : i ≡ j = ground arith in subst (λ n. content_length n all ≤ size) same here
]

longest_from-lem :
    (best size i : ℕ) (messages all : List Message)
    → Scanned best size i messages all
    → (j : ℕ) → content_length j all ≤ content_length (longest_from best size i messages) all
unfolding longest_from content_length
longest_from-lem best size i [] all s j = elim (Bool-cases (ltb j i)) [
  | inl e ↦ rw s.is_size (s.before j (ground arith))
  | inr e ↦
      let split : j ≡ i + (j - i) = ground arith in
      let none_left : content_length j all ≡ 0 =
        ap (λ n. content_length n all) split ∙ s.behind (j - i) in
      rw none_left (omega arith)
]
longest_from-lem best size i (m ∷ messages) all s j =
    elim (Bool-cases (ltb size (length m.content))) [
      | inl e ↦ rw e (
          longest_from-lem i (length m.content) (suc i) messages all
            (record {
              is_size = first_behind s;
              before =
                  Below-suc all (omega (arith, first_behind s))
                    (λ j h. omega (arith, s.before j h, ltb→lt size (length m.content) e));
              behind = next_behind s;
            })
            j)
      | inr e ↦ rw e (
          longest_from-lem best size (suc i) messages all
            (record {
              is_size = s.is_size;
              before = Below-suc all (ground (arith, first_behind s)) s.before;
              behind = next_behind s;
            })
            j)
    ]

content_length-nil : (j : ℕ) → content_length j [] ≡ 0
unfolding content_length
content_length-nil zero = refl
content_length-nil (suc j) = refl

shorten-lem :
    (count : List Message → ℕ) (budget : ℕ) (max_tokens : Option ℕ) (m : Message)
    (messages : List Message)
    → (fitted : List Message) × (shorten count budget max_tokens (m ∷ messages) ≡ some fitted)
      × (i : ℕ) × (k : ℕ) × (fitted ≡ change_at (cut_message k) i (m ∷ messages))
      × IsCut
          (fits_at count budget max_tokens i (m ∷ messages))
          0
          (content_length i (m ∷ messages))
          k
      × ((j : ℕ) → content_length j (m ∷ messages) ≤ content_length i (m ∷ messages))
unfolding shorten
shorten-lem count budget max_tokens m messages =
    let all = m ∷ messages in
    let i = longest_from 0 (length m.content) 1 messages in
    let (k, found, cut) =
      search_prefix-IsCut (suc (content_length i all)) (fits_at count budget max_tokens i all) 0
        (content_length i all) (omega arith) (omega arith) in
    (
      change_at (cut_message k) i all,
      rw found refl,
      i,
      k,
      refl,
      cut,
      longest_from-lem 0 (length m.content) 1 messages all (record {
        is_size = refl;
        before = λ j h.
            let e : 0 ≡ j = omega arith in
            subst (λ n. content_length n all ≤ length m.content) e (omega arith);
        behind = λ j. behind_first j;
      }),
    )
  where
    behind_first : (j : ℕ) → content_length (1 + j) (m ∷ messages) ≡ content_length j messages
    behind_first j =
        let e : 1 + j ≡ suc j = omega arith in ap (λ n. content_length n (m ∷ messages)) e

-- For every counter, budget and non-empty list of messages a fitted list is returned: the messages
-- themselves when they are within the budget; else with the first `k` characters of one message
-- that no other is longer than, where `k` is 0 or `k` characters of it fit, and `k` is all of them
-- or `k + 1` do not fit.
pub fit_to_budget_lem :
    (count : List Message → ℕ) (m : Message) (messages : List Message) (budget : ℕ)
    (max_tokens : Option ℕ)
    → (fitted : List Message) × (fit_to_budget count (m ∷ messages) (some budget) max_tokens
        ≡ some fitted)
      × IsFitted count budget max_tokens (m ∷ messages) fitted
unfolding fit_to_budget
fit_to_budget_lem count m messages budget max_tokens =
    elim (Bool-cases (within count budget max_tokens (m ∷ messages))) [
      | inl e ↦ (m ∷ messages, rw e refl, inl (e, refl))
      | inr e ↦
          let (fitted, found, i, k, is_cut, cut, most) =
            shorten-lem count budget max_tokens m messages in
          (fitted, rw e found, inr (i, k, is_cut, cut, most))
    ]
