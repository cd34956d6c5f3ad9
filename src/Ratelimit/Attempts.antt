-- ===== src/Ratelimit/Attempts.antt =====
-- How often the wrappers of backend/ratelimit.py call, and how far apart calls start.
use ai_powered_research_work.Prelude.{
  ℕ, zero, suc, ◌+◌, ◌≤◌, ◌≡◌, ◌⊎◌, inl, inr, refl, sym, ap, ◌∙◌, subst, true, false, List, [], ◌∷◌,
  arith, All, Bool-cases,
}
use ai_powered_research_work.Ratelimit.{
  acquired_at, acquire_all, Response, is_retryable_status, Run, backoff_from, call_with_backoff,
  Outcome, returned, retryable, other, on_outcome, retry_from, call_with_retry,
}

-- Every start is at least `d` after the one before it, and the first not before `from`.
abbrev pub Spaced : ℕ → ℕ → List ℕ → Type 0
Spaced d from [] = Unit
Spaced d from (t ∷ starts) = (from ≤ t) × Spaced d (t + d) starts

-- For every minimal interval, whenever the callers come and however late their sleeps end: each
-- call starts at least the interval after the one before it, the first when the bucket opens.
pub acquire_all-Spaced :
    (min_interval next_allowed_at : ℕ) (calls : List (ℕ × ℕ))
    → Spaced min_interval next_allowed_at (acquire_all min_interval next_allowed_at calls)
unfolding acquire_all acquired_at
acquire_all-Spaced min_interval next_allowed_at [] = tt
acquire_all-Spaced min_interval next_allowed_at ((now, over) ∷ calls) = (
  ground arith,
  acquire_all-Spaced min_interval (acquired_at next_allowed_at now over + min_interval) calls,
)

-- `n` numbers from `from` on.
abbrev pub upto : ℕ → ℕ → List ℕ
upto from zero = []
upto from (suc n) = from ∷ upto (suc from) n

module _ (jitter : ℕ → ℕ) (base_backoff max_backoff : ℕ) (respond : ℕ → Response) where
  Retryable : ℕ → Type 0
  Retryable attempt = is_retryable_status (respond attempt).status_code ≡ true

  -- A run from `attempt` on with `left` retries stops at the attempt `final` places later.
  Stops : ℕ → ℕ → Run Response → Type 0
  Stops left attempt r =
      (final : ℕ) × (final ≤ left)
      × (r.calls ≡ suc final)
      × (r.result ≡ respond (attempt + final))
      × All Retryable (upto attempt final)
      × ((is_retryable_status r.result.status_code ≡ false) ⊎ (final ≡ left))

  backoff_from-Stops :
      (left attempt : ℕ)
      → Stops left attempt (backoff_from jitter base_backoff max_backoff respond left attempt)
  unfolding backoff_from Stops Retryable
  backoff_from-Stops zero attempt = (0, omega arith, refl, ap respond (omega arith), tt, inr refl)
  backoff_from-Stops (suc left) attempt =
      elim (Bool-cases (is_retryable_status (respond attempt).status_code)) [
        | inr e ↦ rw e (0, omega arith, refl, ap respond (omega arith), tt, inl e)
        | inl e ↦
            let (final, le, calls, result, all, why) = backoff_from-Stops left (suc attempt) in
            rw e (
              suc final,
              omega arith,
              ap suc calls,
              result ∙ ap respond (omega arith),
              (e, all),
              later why,
            )
      ]
    where
      later : {P : Type 0} {final left : ℕ} → P ⊎ (final ≡ left) → P ⊎ (suc final ≡ suc left)
      later (inl p) = inl p
      later (inr e) = inr (ap suc e)

  -- For every sequence of responses and every number of retries: the run calls once more than
  -- there are attempts before its last, at most `max_retries + 1` times; every attempt before the
  -- last met a 429 or a 5xx; the response of the last is returned, and it is neither, or all the
  -- retries are spent.
  pub call_with_backoff_lem :
      (max_retries : ℕ)
      → (final : ℕ) × (final ≤ max_retries)
        × ((call_with_backoff jitter base_backoff max_backoff respond max_retries).calls
            ≡ suc final)
        × ((call_with_backoff jitter base_backoff max_backoff respond max_retries).result
            ≡ respond final)
        × All (λ attempt. is_retryable_status (respond attempt).status_code ≡ true) (upto 0 final)
        × ((is_retryable_status (respond final).status_code ≡ false) ⊎ (final ≡ max_retries))
  unfolding call_with_backoff Stops Retryable
  call_with_backoff_lem max_retries =
      let (final, le, calls, result, all, why) = backoff_from-Stops max_retries 0 in
      let at_final = result ∙ ap respond (let e : 0 + final ≡ final = omega arith in e) in
      (
        final,
        le,
        calls,
        at_final,
        all,
        subst (λ r. (is_retryable_status r.status_code ≡ false) ⊎ (final ≡ max_retries)) at_final
            why,
      )

abbrev pub IsRetryable {ℓ} : {A : Type ℓ} → Outcome A → Type 0
IsRetryable (returned a) = ⊥
IsRetryable (retryable wait) = Unit
IsRetryable other = ⊥

module _ {ℓ} (jitter : ℕ → ℕ) (base_backoff max_backoff : ℕ) {A : Type ℓ}
    (call : ℕ → Outcome A) where
  abbrev pub StopsAt : ℕ → ℕ → Run (Outcome A) → Type ℓ
  StopsAt left attempt r =
      (final : ℕ) × (final ≤ left)
      × (r.calls ≡ suc final)
      × (r.result ≡ call (attempt + final))
      × All (λ k. IsRetryable (call k)) (upto attempt final)
      × ((¬ IsRetryable (call (attempt + final))) ⊎ (final ≡ left))

  retry_from-StopsAt :
      (left attempt : ℕ)
      → StopsAt left attempt (retry_from jitter base_backoff max_backoff call left attempt)
  unfolding retry_from
  retry_from-StopsAt zero attempt = (0, omega arith, refl, ap call (omega arith), tt, inr refl)
  retry_from-StopsAt (suc left) attempt =
      by_outcome (call attempt) refl (retry_from-StopsAt left (suc attempt))
    where
      by_outcome :
          (o : Outcome A)
          → call attempt ≡ o
          → StopsAt left
              (suc attempt)
              (retry_from jitter base_backoff max_backoff call left (suc attempt))
          → StopsAt (suc left) attempt (
              on_outcome jitter base_backoff max_backoff attempt o
                (retry_from jitter base_backoff max_backoff call left (suc attempt)))
      by_outcome (returned a) e more = (
        0,
        omega arith,
        refl,
        sym e ∙ ap call (omega arith),
        tt,
        inl (λ h. subst IsRetryable (ap call (omega arith) ∙ e) h),
      )
      by_outcome other e more = (
        0,
        omega arith,
        refl,
        sym e ∙ ap call (omega arith),
        tt,
        inl (λ h. subst IsRetryable (ap call (omega arith) ∙ e) h),
      )
      by_outcome (retryable wait) e (final, le, calls, result, all, why) = (
        suc final,
        omega arith,
        ap suc calls,
        result ∙ ap call (omega arith),
        (subst IsRetryable (sym e) tt, all),
        later why,
      )
        where
          shift : suc attempt + final ≡ attempt + suc final
          shift = omega arith

          later :
              (¬ IsRetryable (call (suc attempt + final))) ⊎ (final ≡ left)
              → (¬ IsRetryable (call (attempt + suc final))) ⊎ (suc final ≡ suc left)
          later (inl p) = inl (λ h. p (subst (λ k. IsRetryable (call k)) (sym shift) h))
          later (inr e) = inr (ap suc e)

  -- For every sequence of outcomes and every number of retries: the run ends with the outcome of
  -- its last attempt, at most `max_retries` after the first; every attempt before it raised a
  -- retryable exception; and the last did not, or all the retries are spent.
  pub call_with_retry_lem :
      (max_retries : ℕ)
      → StopsAt max_retries 0 (call_with_retry jitter base_backoff max_backoff call max_retries)
  unfolding call_with_retry
  call_with_retry_lem max_retries = retry_from-StopsAt max_retries 0
