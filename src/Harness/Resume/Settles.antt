-- ===== src/Harness/Resume/Settles.antt =====
-- One orphan closed, and lists of turns taken one after the other, in the sweep of
-- backend/harness/resume.py.
use ai_powered_research_work.Prelude.{
  ℕ, ◌≡◌, refl, sym, ap, subst, ◌∙◌, inl, inr, Bool, true, false, ◌&&◌, ◌||◌, Option, none, some,
  List, [], ◌∷◌, ◌++◌, append-nil, append_assoc, map, Text, arith, keep, any, ◌==◌, if◌then◌else◌,
  Bool-cases,
}
use ai_powered_research_work.Harness.Resume.{
  Status, MessageRow, TraceRow, Store, Swept, is_running, find_trace, finished, finish_row, finish,
  close_turn, settled, followed_by, has_assistant, is_orphan, orphans,
}

-- The row of a turn after the sweep has closed it.
abbrev pub closed : TraceRow → TraceRow
closed row = finished Status.interrupted 0 row

abbrev pub closed_if_running : TraceRow → TraceRow
closed_if_running row = if is_running row.status then closed row else row

abbrev pub on_some : (TraceRow → TraceRow) → Option TraceRow → Option TraceRow
on_some f none = none
on_some f (some row) = some (f row)

find-finish_row :
    (j k : ℕ) (traces : List TraceRow)
    → find_trace j (finish_row k Status.interrupted 0 traces)
      ≡ (if k == j then on_some closed (find_trace j traces) else find_trace j traces)
find-finish_row j k [] = ground arith
find-finish_row j k (row ∷ traces) = ground (arith, find-finish_row j k traces)

-- The sweep adds to the transcript and never changes what is there.
abbrev pub Extends : Store → Store → Type 0
Extends st after = (added : List MessageRow) × (after.messages ≡ st.messages ++ added)

any-append :
    (p : MessageRow → Bool) (l m : List MessageRow) → any p l ≡ true → any p (l ++ m) ≡ true
any-append p [] m h = cc
any-append p (r ∷ l) m h = ground (arith, any-append p l m)

pub any_last :
    (p : MessageRow → Bool) (l : List MessageRow) (r : MessageRow)
    → p r ≡ true
    → any p (l ++ (r ∷ [])) ≡ true
any_last p [] r h = rw h
any_last p (q ∷ l) r h = ground (arith, any_last p l r)

any_same : (l m : List MessageRow) (p : MessageRow → Bool) → any p (l ++ m) ≡ (any p l || any p m)
any_same [] m p = refl
any_same (r ∷ l) m p = ground (arith, any_same l m p)

find-turn_id :
    (turn : ℕ) (traces : List TraceRow) (row : TraceRow)
    → find_trace turn traces ≡ some row
    → row.turn_id ≡ turn
find-turn_id turn [] row h = absurd (cc h)
find-turn_id turn (r ∷ traces) row h = elim (Bool-cases (r.turn_id == turn)) [
  | inl e ↦ grind (arith, rw e at h, e)
  | inr e ↦ find-turn_id turn traces row (rw e at h)
]

still_has :
    (st after : Store) (turn : ℕ)
    → Extends st after
    → has_assistant st turn ≡ true
    → has_assistant after turn ≡ true
still_has st after turn (added, e) h = rw e (any-append _ st.messages added h)

Extends-trans : (a b c : Store) → Extends a b → Extends b c → Extends a c
Extends-trans a b c (l, e) (m, f) = (l ++ m, f ∙ ap (λ k. k ++ m) e ∙ append_assoc a.messages l m)

-- A run that raises nothing, closes the running turn and gives it an `assistant` row.
abbrev pub Closes : TraceRow → Store → Swept → Type 0
Closes trace st r =
    (r.raised ≡ false)
    × (r.store.traces ≡ finish_row trace.turn_id Status.interrupted 0 st.traces)
    × Extends st r.store
    × (has_assistant r.store trace.turn_id ≡ true)

pub close_turn-Closes :
    (trace : TraceRow) (note : Text) (ran : List Text) (st : Store)
    → Closes trace st (close_turn trace note ran st)
unfolding close_turn finish
close_turn-Closes trace note ran st =
    (refl, refl, (_, refl), any_last _ st.messages _ (ground arith))

pub same_id : (k : ℕ) → ((k == k) && true) ≡ true
same_id k = ground arith

-- What a list of turns, taken one after the other, leaves.
abbrev pub Settles : List ℕ → Store → Swept → Type 0
Settles turns st r =
    (r.raised ≡ false)
    × Extends st r.store
    × ((j : ℕ)
        → find_trace j r.store.traces ≡ (
            if any (λ turn. turn == j) turns
            then on_some closed_if_running (find_trace j st.traces)
            else find_trace j st.traces))
    × ((j : ℕ) (row : TraceRow)
        → any (λ turn. turn == j) turns ≡ true
        → find_trace j st.traces ≡ some row
        → is_running row.status ≡ true
        → has_assistant r.store j ≡ true)

at_turn :
    (turn j : ℕ) (st : Store) (o : Option TraceRow)
    → find_trace turn st.traces ≡ o
    → (turn == j) ≡ true
    → find_trace j st.traces ≡ o
at_turn turn j st o e t = subst (λ k. find_trace k st.traces ≡ o) (eq_of turn j t) e
  where
    eq_of : (a b : ℕ) → (a == b) ≡ true → a ≡ b
    eq_of a b h = ground arith

pub only : (turn j : ℕ) → any (λ k. k == j) (turn ∷ []) ≡ true → (turn == j) ≡ true
only turn j h = ground arith

-- A turn without a row, or whose row is not running, is left alone.
pub idle-Settles :
    (turn : ℕ) (st : Store) (o : Option TraceRow)
    → find_trace turn st.traces ≡ o
    → on_some closed_if_running o ≡ o
    → ((row : TraceRow) → o ≡ some row → is_running row.status ≡ true → ⊥)
    → Settles (turn ∷ []) st (settled st)
idle-Settles turn st o e same_row idle = (
  refl,
  ([], sym (append-nil st.messages)),
  λ j. elim (Bool-cases (turn == j)) [
    | inl t ↦ rw (t, at_turn turn j st o e t) (sym same_row)
    | inr t ↦ rw t refl
  ],
  λ j row here found run.
      absurd (idle row (sym (at_turn turn j st o e (only turn j here)) ∙ found) run),
)

pub Closes-Settles :
    (turn : ℕ) (st : Store) (trace : TraceRow) (r : Swept)
    → find_trace turn st.traces ≡ some trace
    → is_running trace.status ≡ true
    → Closes trace st r
    → Settles (turn ∷ []) st r
Closes-Settles turn st trace r e run (quiet, traces, ext, has) =
    let id : trace.turn_id ≡ turn = find-turn_id turn st.traces trace e in
    (
      quiet,
      ext,
      λ j.
          ap (find_trace j) traces
          ∙ find-finish_row j trace.turn_id st.traces
          ∙ elim (Bool-cases (turn == j)) [
            | inl t ↦ rw (id, t, at_turn turn j st (some trace) e t, run) refl
            | inr t ↦ rw (id, t) refl
          ],
      λ j row here found running.
          subst (λ k. has_assistant r.store k ≡ true) (id ∙ eq_of turn j (only turn j here)) has,
    )
  where
    eq_of : (a b : ℕ) → (a == b) ≡ true → a ≡ b
    eq_of a b h = ground arith

closed_twice :
    (o : Option TraceRow)
    → on_some closed_if_running (on_some closed_if_running o) ≡ on_some closed_if_running o
closed_twice none = refl
closed_twice (some row) = elim (Bool-cases (is_running row.status)) [
  | inl e ↦ rw e refl
  | inr e ↦ rw (e, e) refl
]

pub Settles-both :
    (turn : ℕ) (turns : List ℕ) (st : Store) (first rest : Swept)
    → Settles (turn ∷ []) st first
    → Settles turns first.store rest
    → Settles (turn ∷ turns) st (followed_by first rest)
Settles-both turn turns st first rest (quiet, ext, find, has) (quiet_2, ext_2, find_2, has_2) = (
  quiet_2,
  Extends-trans st first.store rest.store ext ext_2,
  λ j. find_2 j ∙ elim (Bool-cases (turn == j)) [
    | inl t ↦ elim (Bool-cases (any (λ k. k == j) turns)) [
      | inl more ↦ rw (t, more, now j t) (closed_twice (find_trace j st.traces))
      | inr stop ↦ rw (t, stop) (now j t)
    ]
    | inr t ↦ rw (t, later j t) refl
  ],
  λ j row any_of found run. elim (Bool-cases (turn == j)) [
    | inl t ↦ still_has first.store rest.store j ext_2 (has j row (rw t refl) found run)
    | inr t ↦ has_2 j row (rw t at any_of) (later j t ∙ found) run
  ],
)
  where
    now :
        (j : ℕ)
        → (turn == j) ≡ true
        → find_trace j first.store.traces ≡ on_some closed_if_running (find_trace j st.traces)
    now j t = find j ∙ rw t refl

    later : (j : ℕ) → (turn == j) ≡ false → find_trace j first.store.traces ≡ find_trace j st.traces
    later j t = find j ∙ rw t refl

pub orphan-runs :
    (project : ℕ) (st : Store) (row : TraceRow)
    → is_orphan project st row ≡ true
    → is_running row.status ≡ true
orphan-runs project st row h = ground arith

-- A row that passes a test is among the rows that the test keeps.
kept-has :
    (p : TraceRow → Bool) (turn : ℕ) (traces : List TraceRow) (row : TraceRow)
    → find_trace turn traces ≡ some row
    → p row ≡ true
    → any (λ k. k == turn) (map (λ r. r.turn_id) (keep p traces)) ≡ true
kept-has p turn [] row found h = absurd (cc found)
kept-has p turn (r ∷ traces) row found h = elim (Bool-cases (r.turn_id == turn)) [
  | inl e ↦
      let same_row : some r ≡ some row = rw e at found in
      let here : p r ≡ true = cc (same_row, h) in rw (here, e) refl
  | inr e ↦ elim (Bool-cases (p r)) [
    | inl q ↦ rw (q, e) (kept-has p turn traces row (rw e at found) h)
    | inr q ↦ rw q (kept-has p turn traces row (rw e at found) h)
  ]
]

pub orphans-has :
    (project : ℕ) (st : Store) (turn : ℕ) (row : TraceRow)
    → find_trace turn st.traces ≡ some row
    → is_orphan project st row ≡ true
    → any (λ k. k == turn) (orphans project st) ≡ true
unfolding orphans
orphans-has project st turn row = kept-has (is_orphan project st) turn st.traces row
