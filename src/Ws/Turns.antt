-- ===== src/Ws/Turns.antt =====
-- The turns of each session: what holds of `_in_flight` and of the running turns in
-- every world that backend/ws/__init__.py and backend/harness/loop.py reach.
use ai_powered_research_work.Prelude.{
  ℕ, ◌+◌, suc, ◌<◌, ◌≤◌, ◌≡◌, refl, sym, ap, subst, ◌∙◌, inl, inr, Bool, true, false, Option, none,
  some, text_eq, List, [], ◌∷◌, ◌++◌, arith, length, keep, find_first, any, Bool-cases,
}
use ai_powered_research_work.Prelude.Assoc.{lookup}
use ai_powered_research_work.Ws.{
  Session, UpstreamEvent, user_message, ui_state_event, interrupt_event, approval_response, Slot,
  World, has_key, pop_key, begin_turn, set_flag, interrupt, set_result, resolve, register, discard,
  with_ui_state, spawn, handle_message, handle_connect, accept_if, accept_session, is_session,
  without_if, disconnect, end_turn, Step, connect, message, leave, ends, ask, give_up, Reach, begin,
  next_step,
}

-- How many of the slots are of one session.
abbrev pub count_key : ℕ → ℕ → List Slot → ℕ
count_key p c slots = length (keep (has_key p c) slots)

-- The running turns are those that hold a slot, and no session has two.
abbrev pub IsOnePerSession : World → Type 0
IsOnePerSession w = (w.turns ≡ w.in_flight) × ((p c : ℕ) → count_key p c w.turns ≤ 1)

count_key-append :
    (p c : ℕ) (l m : List Slot) → count_key p c (l ++ m) ≡ count_key p c l + count_key p c m
count_key-append p c [] m = omega arith
count_key-append p c (s ∷ l) m = ground (arith, count_key-append p c l m)

any-count_key : (p c : ℕ) (l : List Slot) → any (has_key p c) l ≡ false → count_key p c l ≡ 0
any-count_key p c [] h = refl
any-count_key p c (s ∷ l) h = ground (arith, any-count_key p c l)

own_key : (slot : Slot) → has_key slot.project_id slot.conversation_id slot ≡ true
own_key slot = ground arith

same_key :
    (p c : ℕ) (s : Slot) → has_key p c s ≡ true → (s.project_id ≡ p) × (s.conversation_id ≡ c)
same_key p c s h = ground arith

counts_own :
    (slot : Slot) (l : List Slot) → 0 < count_key slot.project_id slot.conversation_id (slot ∷ l)
counts_own slot l = rw (own_key slot) (omega arith)

add_slot :
    (slot : Slot) (l : List Slot) (q d : ℕ)
    → count_key q d l ≤ 1
    → any (has_key slot.project_id slot.conversation_id) l ≡ false
    → count_key q d (l ++ (slot ∷ [])) ≤ 1
add_slot slot l q d one free = elim (Bool-cases (has_key q d slot)) [
  | inl e ↦
      let (p, c) = same_key q d slot e in
      let zero_here : count_key q d l ≡ 0 = any-count_key q d l (
        subst (λ k. any (has_key k d) l ≡ false) p
          (subst (λ k. any (has_key slot.project_id k) l ≡ false) c free)) in
      let last_one : count_key q d (slot ∷ []) ≡ 1 = rw e refl in
      omega (arith, count_key-append q d l (slot ∷ []), last_one, zero_here)
  | inr e ↦
      let no_last : count_key q d (slot ∷ []) ≡ 0 = rw e refl in
      omega (arith, count_key-append q d l (slot ∷ []), no_last, one)
]

count_without :
    (q d : ℕ) (slot : Slot) (before after : List Slot)
    → count_key q d (before ++ after) ≤ count_key q d (before ++ (slot ∷ after))
count_without q d slot before after = elim (Bool-cases (has_key q d slot)) [
  | inl e ↦
      let more : count_key q d (slot ∷ after) ≡ suc (count_key q d after) = rw e refl in
      omega
        (arith, count_key-append q d before after, count_key-append q d before (slot ∷ after), more)
  | inr e ↦
      let equal : count_key q d (slot ∷ after) ≡ count_key q d after = rw e refl in
      omega (
        arith,
        count_key-append q d before after,
        count_key-append q d before (slot ∷ after),
        equal,
      )
]

-- The slot between two others is the one that `pop` removes.
pop_key_lem :
    (before : List Slot) (slot : Slot) (after : List Slot)
    → count_key slot.project_id slot.conversation_id (before ++ (slot ∷ after)) ≤ 1
    → pop_key slot.project_id slot.conversation_id (before ++ (slot ∷ after)) ≡ before ++ after
pop_key_lem [] slot after h = rw (own_key slot) refl
pop_key_lem (s ∷ before) slot after h =
    elim (Bool-cases (has_key slot.project_id slot.conversation_id s)) [
      | inl e ↦ absurd (
          omega (
            arith,
            rw e at h,
            count_key-append slot.project_id slot.conversation_id before (slot ∷ after),
            counts_own slot after,
          ))
      | inr e ↦ rw e (ap (λ l. s ∷ l) (pop_key_lem before slot after (rw e at h)))
    ]

find_only :
    (before : List Slot) (slot : Slot) (after : List Slot)
    → count_key slot.project_id slot.conversation_id (before ++ (slot ∷ after)) ≤ 1
    → find_first (has_key slot.project_id slot.conversation_id) (before ++ (slot ∷ after))
      ≡ some slot
find_only [] slot after h = rw (own_key slot) refl
find_only (s ∷ before) slot after h =
    elim (Bool-cases (has_key slot.project_id slot.conversation_id s)) [
      | inl e ↦ absurd (
          omega (
            arith,
            rw e at h,
            count_key-append slot.project_id slot.conversation_id before (slot ∷ after),
            counts_own slot after,
          ))
      | inr e ↦ rw e (find_only before slot after (rw e at h))
    ]

spawn-IsOnePerSession :
    (p c : ℕ) (w : World) → IsOnePerSession w → IsOnePerSession (spawn (begin_turn p c w) w)
unfolding begin_turn
spawn-IsOnePerSession p c w (e, one) = elim (Bool-cases (any (has_key p c) w.in_flight)) [
  | inl busy ↦ rw busy (e, one)
  | inr free ↦ rw free (
    ap (λ l. l ++ (record { project_id = p; conversation_id = c; flag = w.next } ∷ [])) e,
    λ q d.
        add_slot (record { project_id = p; conversation_id = c; flag = w.next }) w.turns q d
          (one q d) (ap (any (has_key p c)) e ∙ free),
  )
]

handle_message-IsOnePerSession :
    (id : ℕ) (s : Session) (event : UpstreamEvent) (w : World)
    → IsOnePerSession w
    → IsOnePerSession (handle_message id s event w)
unfolding handle_message interrupt resolve
handle_message-IsOnePerSession id s (approval_response request approved) w h =
    answer (lookup request w.pending)
  where
    answer : (o : Option (Option Bool)) → IsOnePerSession (set_result request approved o w)
    answer none = h
    answer (some none) = h
    answer (some (some b)) = h
handle_message-IsOnePerSession id s (ui_state_event selection) w h = h
handle_message-IsOnePerSession id s interrupt_event w h =
    flagged (find_first (has_key s.project_id s.conversation_id) w.in_flight)
  where
    flagged : (o : Option Slot) → IsOnePerSession (set_flag o w)
    flagged none = h
    flagged (some slot) = h
handle_message-IsOnePerSession id s (user_message text ui_state) w h =
    spawn-IsOnePerSession s.project_id s.conversation_id (with_ui_state id s ui_state w) h

step-IsOnePerSession : {v w : World} → Step v w → IsOnePerSession v → IsOnePerSession w
unfolding handle_connect accept_session disconnect end_turn register discard
step-IsOnePerSession {v} (connect bearer_token token p c) h = accepted (text_eq token bearer_token)
  where
    accepted : (b : Bool) → IsOnePerSession (accept_if b p c v)
    accepted true = h
    accepted false = h
step-IsOnePerSession {v} (message id s event found) h =
    handle_message-IsOnePerSession id s event v h
step-IsOnePerSession {v} (leave id p) h = left (is_session id (lookup p v.sessions))
  where
    left : (b : Bool) → IsOnePerSession (without_if b p v)
    left false = h
    left true = h
step-IsOnePerSession {v} (ends before slot after split) (e, one) =
    let full : (p c : ℕ) → count_key p c (before ++ (slot ∷ after)) ≤ 1 =
      λ p c. subst (λ l. count_key p c l ≤ 1) split (one p c) in
    let popped = pop_key_lem before slot after (full slot.project_id slot.conversation_id) in
    (
      sym (ap (pop_key slot.project_id slot.conversation_id) (sym e ∙ split) ∙ popped),
      λ p c. omega (arith, full p c, count_without p c slot before after),
    )
step-IsOnePerSession (ask request) h = h
step-IsOnePerSession (give_up request) h = h

-- In every world that is reached: the turns that run are exactly those that hold a slot of
-- `_in_flight`, in the same order, and at most one of them is of any one session.
pub Reach-IsOnePerSession : (w : World) → Reach w → IsOnePerSession w
Reach-IsOnePerSession _ begin = (refl, λ p c. omega arith)
Reach-IsOnePerSession _ (next_step r step) = step-IsOnePerSession step (Reach-IsOnePerSession _ r)

-- In a world that is reached, for a turn that runs: the interrupt of its session sets its flag,
-- and no other.
pub interrupt-flag :
    (w : World)
    → Reach w
    → (before : List Slot) (slot : Slot) (after : List Slot) → w.turns ≡ before ++ (slot ∷ after)
    → (interrupt slot.project_id slot.conversation_id w).cancelled ≡ slot.flag ∷ w.cancelled
unfolding interrupt
interrupt-flag w r before slot after split =
    let (e, one) = Reach-IsOnePerSession w r in
    let full : count_key slot.project_id slot.conversation_id (before ++ (slot ∷ after)) ≤ 1 =
      subst (λ l. count_key slot.project_id slot.conversation_id l ≤ 1) split
        (one slot.project_id slot.conversation_id) in
    let found =
      ap (find_first (has_key slot.project_id slot.conversation_id)) (sym e ∙ split)
      ∙ find_only before slot after full in
    rw found refl
