-- ===== src/Ws/Registry.antt =====
-- The registry of sessions of backend/ws/__init__.py and the pending approvals of
-- backend/harness/approval.py: late and repeated calls.
use ai_powered_research_work.Prelude.{
  ℕ, ◌≡◌, ◌≢◌, refl, sym, ◌∙◌, Bool, true, false, Option, none, some, Text, text_eq_refl, arith,
  ◌==◌,
}
use ai_powered_research_work.Prelude.Assoc.{lookup, insert, without, lookup-insert, lookup-without}
use ai_powered_research_work.Ws.{
  World, handle_connect, accept_session, disconnect, register, resolve, discard,
}

eq_self : (k : ℕ) → (k == k) ≡ true
eq_self k = ground arith

-- For every world and project: when a session has connected with the right token, the end of any
-- other connection of the project, whenever it comes, leaves the session registered.
pub disconnect-handle_connect :
    (bearer_token : Text) (id p c : ℕ) (w : World)
    → id ≢ w.next
    → lookup p (disconnect id p (handle_connect bearer_token bearer_token p c w)).sessions
      ≡ some w.next
unfolding disconnect handle_connect accept_session
disconnect-handle_connect bearer_token id p c w older =
    let here : lookup p (insert p w.next w.sessions) ≡ some w.next =
      lookup-insert p p w.next w.sessions ∙ rw (eq_self p) refl in
    let other : (w.next == id) ≡ false = different w.next id (λ e. older (sym e)) in
    rw (text_eq_refl bearer_token, here, other) here
  where
    different : (a b : ℕ) → a ≢ b → (a == b) ≡ false
    different a b h = ground arith

-- What a request waits for.
abbrev pub answer_of : ℕ → World → Option (Option Bool)
answer_of request w = lookup request w.pending

-- For every world and request: the first answer after its registration is the one that the
-- future holds, a second one changes nothing, and after a discard an answer is a no-op.
pub resolve-register :
    (request : ℕ) (approved again : Bool) (w : World)
    → (answer_of request (resolve request approved (register request w)) ≡ some (some approved))
      × (resolve request again (resolve request approved (register request w))
          ≡ resolve request approved (register request w))
      × (resolve request again (discard request w) ≡ discard request w)
unfolding register resolve discard
resolve-register request approved again w =
    let waiting : lookup request (insert request none w.pending) ≡ some none =
      lookup-insert request request none w.pending ∙ rw (eq_self request) refl in
    let done : lookup request (insert request (some approved) (insert request none w.pending))
        ≡ some (some approved) =
      lookup-insert request request (some approved) (insert request none w.pending)
      ∙ rw (eq_self request) refl in
    let gone : lookup request (without request w.pending) ≡ none =
      lookup-without request request w.pending ∙ rw (eq_self request) refl in
    (rw waiting done, rw (waiting, done) refl, rw gone refl)
