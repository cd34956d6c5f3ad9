-- ===== src/Ratelimit.antt =====
-- backend/ratelimit.py. Times are whole milliseconds. The clock, the responses, the random jitter
-- and the oversleep of `asyncio.sleep` are arguments.
pub mod Attempts
use ai_powered_research_work.Prelude.{
  ℕ, zero, suc, ◌+◌, ◌*◌, ◌^◌, min, Bool, true, false, ◌&&◌, ◌||◌, Option, none, some, List, [],
  ◌∷◌, ltb, leb, ◌==◌, if◌then◌else◌,
}

-- The time at which an `acquire` returns, called when the bucket opens at `next_allowed_at`; a
-- sleep ends `over` too late.
unfoldable pub acquired_at : ℕ → ℕ → ℕ → ℕ
acquired_at next_allowed_at now over =
    if ltb now next_allowed_at then next_allowed_at + over else now

-- The start times of a run of calls, each given by the clock at its turn and its oversleep; the
-- lock makes them one after the other.
unfoldable pub acquire_all : ℕ → ℕ → List (ℕ × ℕ) → List ℕ
unfolding acquired_at
acquire_all min_interval next_allowed_at [] = []
acquire_all min_interval next_allowed_at ((now, over) ∷ calls) =
    let started = acquired_at next_allowed_at now over in
    started ∷ acquire_all min_interval (started + min_interval) calls

pub record Response : Type 0 where
  pub status_code : ℕ
  pub retry_after : Option ℕ

unfoldable pub is_retryable_status : ℕ → Bool
is_retryable_status status_code =
    (status_code == 429) || (leb 500 status_code && ltb status_code 600)

-- `jitter bound` is the draw of `random.uniform` from 0 to a quarter of `bound`.
unfoldable pub backoff_delay : (ℕ → ℕ) → ℕ → ℕ → ℕ → ℕ
backoff_delay jitter attempt base_backoff max_backoff =
    let delay = min (base_backoff * 2 ^ attempt) max_backoff in delay + jitter delay

abbrev pub delay_or : Option ℕ → ℕ → ℕ
delay_or none d = d
delay_or (some s) d = s

-- How a run ended, the calls that it made, and how long it slept between them.
pub record Run {ℓ} (A : Type ℓ) : Type ℓ where
  pub result : A
  pub calls : ℕ
  pub slept : List ℕ

module _ {ℓ} {A : Type ℓ} where
  abbrev pub once : A → Run A
  once a = record { result = a; calls = 1; slept = [] }

  abbrev pub after_sleep : ℕ → Run A → Run A
  after_sleep d r = record { result = r.result; calls = suc r.calls; slept = d ∷ r.slept }

module _ (jitter : ℕ → ℕ) (base_backoff max_backoff : ℕ) where
  -- The loop of `call_with_backoff` from `attempt` on, `left` retries before the last attempt.
  unfoldable pub backoff_from : (ℕ → Response) → ℕ → ℕ → Run Response
  unfolding is_retryable_status backoff_delay
  backoff_from respond zero attempt = once (respond attempt)
  backoff_from respond (suc left) attempt =
      let more = backoff_from respond left (suc attempt) in
      let delay =
        delay_or (respond attempt).retry_after
          (backoff_delay jitter attempt base_backoff max_backoff) in
      if is_retryable_status (respond attempt).status_code
      then after_sleep delay more
      else once (respond attempt)

  unfoldable pub call_with_backoff : (ℕ → Response) → ℕ → Run Response
  unfolding backoff_from
  call_with_backoff respond max_retries = backoff_from respond max_retries 0

-- What a call does: it returns, raises one of `retryable_exceptions` (with the wait that
-- `parse_wait_seconds` reads from it), or raises another exception.
pub data Outcome {ℓ} (A : Type ℓ) : Type ℓ where
  returned : A → Outcome A
  retryable : Option ℕ → Outcome A
  other : Outcome A

module _ (jitter : ℕ → ℕ) (base_backoff max_backoff : ℕ) where
  abbrev pub on_outcome {ℓ} : {A : Type ℓ} → ℕ → Outcome A → Run (Outcome A) → Run (Outcome A)
  on_outcome attempt (returned a) more = once (returned a)
  on_outcome attempt (retryable wait) more =
      after_sleep (delay_or wait (backoff_delay jitter attempt base_backoff max_backoff)) more
  on_outcome attempt other more = once other

  -- The loop of `call_with_retry`; the last outcome is the one that it returns or raises.
  unfoldable pub retry_from {ℓ} : {A : Type ℓ} → (ℕ → Outcome A) → ℕ → ℕ → Run (Outcome A)
  retry_from call zero attempt = once (call attempt)
  retry_from call (suc left) attempt =
      on_outcome attempt (call attempt) (retry_from call left (suc attempt))

  unfoldable pub call_with_retry {ℓ} : {A : Type ℓ} → (ℕ → Outcome A) → ℕ → Run (Outcome A)
  unfolding retry_from
  call_with_retry call max_retries = retry_from call max_retries 0
