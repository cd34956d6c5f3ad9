-- ===== src/Sandbox/Consent.antt =====
-- The consent tokens of backend/sandbox/__init__.py over time. Histories of mints and consumptions are lists, the latest action first.
use ai_powered_research_work.Prelude.{
  ℕ, ◌+◌, ◌≤◌, ◌≡◌, ◌≢◌, refl, sym, ap, ◌∙◌, subst, ◌⊎◌, inl, inr, true, false, none, some, List,
  [], ◌∷◌, arith, Text, text_eq_sound, ◌==◌, ==_iff, if◌then◌else◌, Bool-cases, Option-cases,
}
use mathlib.Core.Option.{some-injective}
use ai_powered_research_work.Prelude.Assoc.{Assoc, lookup, insert, lookup-insert}
use ai_powered_research_work.Sandbox.Confirmation.{
  RunSpec, StoredToken, Consumed, consumed, refused, token_ttl_seconds, mint_confirmation,
  consume_token,
}

pub record Minting : Type 0 where
  pub now : ℕ
  pub token : ℕ
  pub experiment_id : ℕ
  pub spec : RunSpec

pub data Action : Type 0 where
  mint : Minting → Action
  consume : Minting → Action

module _ (hash_spec : RunSpec → Text) where
  abbrev pub attempt : Minting → Assoc StoredToken → Consumed
  attempt m tokens = consume_token hash_spec m.now m.experiment_id m.token m.spec tokens

  abbrev after : Consumed → Assoc StoredToken → Assoc StoredToken
  after (consumed tokens') tokens = tokens'
  after (refused e) tokens = tokens

  unfoldable pub tokens_after : List Action → Assoc StoredToken
  tokens_after [] = []
  tokens_after (mint m ∷ past) =
      mint_confirmation hash_spec m.now m.token m.experiment_id m.spec (tokens_after past)
  tokens_after (consume m ∷ past) =
      let tokens = tokens_after past in after (attempt m tokens) tokens

  abbrev is_success : Consumed → ℕ
  is_success (consumed _) = 1
  is_success (refused _) = 0

  -- How often a token was consumed.
  unfoldable pub uses : ℕ → List Action → ℕ
  uses k [] = 0
  uses k (mint m ∷ past) = uses k past
  uses k (consume m ∷ past) =
      uses k past + (if m.token == k then is_success (attempt m (tokens_after past)) else 0)

  -- `secrets.token_urlsafe` never draws a token that is there.
  abbrev pub DrawsFresh : List Action → Type 0
  DrawsFresh [] = Unit
  DrawsFresh (mint m ∷ past) = (lookup m.token (tokens_after past) ≡ none) × DrawsFresh past
  DrawsFresh (consume m ∷ past) = DrawsFresh past

  -- What a successful consumption found, and what it leaves.
  pub record Success (m : Minting) (tokens tokens' : Assoc StoredToken) : Type 0 where
    pub stored : StoredToken
    pub found : lookup m.token tokens ≡ some stored
    pub unused : stored.used ≡ false
    pub in_time : m.now ≤ stored.expires_at
    pub own : stored.experiment_id ≡ m.experiment_id
    pub same_spec : stored.spec_hash ≡ hash_spec m.spec
    pub left : tokens' ≡ insert m.token (record stored { used = true }) tokens

  attempt-Success :
      (m : Minting) (tokens tokens' : Assoc StoredToken)
      → attempt m tokens ≡ consumed tokens'
      → Success m tokens tokens'
  unfolding consume_token
  attempt-Success m tokens tokens' h = elim (Option-cases (lookup m.token tokens)) [
    | inl e ↦ absurd (ground arith)
    | inr (stored, e) ↦ record {
      stored = stored;
      found = e;
      unused = ground arith;
      in_time = ground arith;
      own = ground arith;
      same_spec = text_eq_sound _ _ (ground arith);
      left = ground arith;
    }
  ]

  -- A used token stays used under every action, and cannot be consumed again.
  IsUsed : ℕ → Assoc StoredToken → Type 0
  IsUsed k tokens = (stored : StoredToken) × (lookup k tokens ≡ some stored) × (stored.used ≡ true)

  used-not_Success :
      (m : Minting) (k : ℕ) (tokens tokens' : Assoc StoredToken)
      → IsUsed k tokens
      → Success m tokens tokens'
      → m.token ≢ k
  unfolding IsUsed
  used-not_Success m k tokens tokens' (stored, found, u) s e =
      let same : s.stored ≡ stored =
        some-injective _ _ (sym s.found ∙ (ap (λ i. lookup i tokens) e ∙ found)) in
      cc (u, s.unused, same)

  insert-IsUsed :
      (k j : ℕ) (v : StoredToken) (tokens : Assoc StoredToken)
      → j ≢ k
      → IsUsed k tokens
      → IsUsed k (insert j v tokens)
  unfolding IsUsed
  insert-IsUsed k j v tokens d (stored, found, u) =
      (stored, rw (lookup-insert j k v tokens) (ground arith), u)

  Success-IsUsed :
      (m : Minting) (tokens tokens' : Assoc StoredToken)
      → Success m tokens tokens'
      → IsUsed m.token tokens'
  unfolding IsUsed
  Success-IsUsed m tokens tokens' s = (
    record (s.stored) { used = true },
    rw (s.left, lookup-insert m.token m.token _ tokens) (ground arith),
    refl,
  )

  -- At most one use so far, and after one the token is marked.
  Spent : ℕ → List Action → Type 0
  Spent k past = (uses k past ≡ 0) ⊎ ((uses k past ≡ 1) × IsUsed k (tokens_after past))

  Spent-mint :
      (k : ℕ) (m : Minting) (past : List Action)
      → lookup m.token (tokens_after past) ≡ none
      → Spent k past
      → Spent k (mint m ∷ past)
  unfolding Spent uses tokens_after mint_confirmation
  Spent-mint k m past fresh (inl zero_uses) = inl zero_uses
  Spent-mint k m past fresh (inr (one, stored)) =
      inr (one, insert-IsUsed k m.token _ (tokens_after past) (λ e. clash stored e) stored)
    where
      clash : IsUsed k (tokens_after past) → m.token ≡ k → ⊥
      clash i e = absurd (unfold IsUsed in cc (i.1, fresh, e))

  Spent-consume :
      (k : ℕ) (m : Minting) (past : List Action) (r : Consumed)
      → attempt m (tokens_after past) ≡ r
      → Spent k past
      → Spent k (consume m ∷ past)
  unfolding Spent uses tokens_after
  Spent-consume k m past (refused e) h s = rw h (ground arith)
  Spent-consume k m past (consumed tokens') h s =
      let success = attempt-Success m (tokens_after past) tokens' h in
      elim (Bool-cases (m.token == k)) [
        | inl e ↦ elim s [
          | inl zero_uses ↦ inr (
            rw (e, h, zero_uses),
            rw h (
                subst (λ i. IsUsed i tokens') ((==_iff m.token k).0 e)
                  (Success-IsUsed m (tokens_after past) tokens' success)),
          )
          | inr (_, stored) ↦ absurd (
              used-not_Success m k (tokens_after past) tokens' stored success
                ((==_iff m.token k).0 e))
        ]
        | inr e ↦ elim s [
          | inl zero_uses ↦ inl (rw (e, zero_uses))
          | inr (one, stored) ↦ inr (
            rw (e, one),
            rw (h, success.left) (insert-IsUsed k m.token _ (tokens_after past) (ne e) stored),
          )
        ]
      ]
    where
      ne : (m.token == k) ≡ false → m.token ≢ k
      ne e same = absurd (ground arith)

  spent : (k : ℕ) (past : List Action) → DrawsFresh past → Spent k past
  unfolding Spent uses
  spent k [] f = inl refl
  spent k (mint m ∷ past) f = Spent-mint k m past f.0 (spent k past f.1)
  spent k (consume m ∷ past) f =
      Spent-consume k m past (attempt m (tokens_after past)) refl (spent k past f)

  -- In any history of mints and consumptions, whatever their times, experiments and specs, each
  -- token is consumed at most once, provided that a drawn token is new.
  pub uses-le_one : (k : ℕ) (past : List Action) → DrawsFresh past → uses k past ≤ 1
  unfolding Spent
  uses-le_one k past f = elim (spent k past f) [ inl e ↦ omega arith | inr (e, _) ↦ omega arith ]

  -- Some mint of the history made a token with these contents.
  abbrev pub WasMinted : List Action → ℕ → ℕ → Text → ℕ → Type 0
  WasMinted [] token experiment_id spec_hash expires_at = ⊥
  WasMinted (consume m ∷ past) token experiment_id spec_hash expires_at =
      WasMinted past token experiment_id spec_hash expires_at
  WasMinted (mint m ∷ past) token experiment_id spec_hash expires_at =
      ((m.token ≡ token)
        × (m.experiment_id ≡ experiment_id)
        × (hash_spec m.spec ≡ spec_hash)
        × (m.now + token_ttl_seconds ≡ expires_at))
      ⊎ WasMinted past token experiment_id spec_hash expires_at

  mint-WasMinted :
      (m : Minting) (past : List Action) (k : ℕ) (stored : StoredToken)
      → lookup k (tokens_after (mint m ∷ past)) ≡ some stored
      → (lookup k (tokens_after past) ≡ some stored
          → WasMinted past k stored.experiment_id stored.spec_hash stored.expires_at)
      → WasMinted (mint m ∷ past) k stored.experiment_id stored.spec_hash stored.expires_at
  unfolding tokens_after mint_confirmation
  mint-WasMinted m past k stored h ih =
      let h' = rw (lookup-insert m.token k _ (tokens_after past)) at h in
      elim (Bool-cases (m.token == k)) [
        | inl e ↦ inl (
            let same = some-injective _ _ (rw e at h') in
            (
              (==_iff m.token k).0 e,
              ap (λ (x : StoredToken). x.experiment_id) same,
              ap (λ (x : StoredToken). x.spec_hash) same,
              ap (λ (x : StoredToken). x.expires_at) same,
            ))
        | inr e ↦ inr (ih (rw e at h'))
      ]

  consume-WasMinted :
      (m : Minting) (past : List Action) (k : ℕ) (stored : StoredToken) (r : Consumed)
      → attempt m (tokens_after past) ≡ r
      → lookup k (after r (tokens_after past)) ≡ some stored
      → ((s : StoredToken)
          → lookup k (tokens_after past) ≡ some s
          → WasMinted past k s.experiment_id s.spec_hash s.expires_at)
      → WasMinted past k stored.experiment_id stored.spec_hash stored.expires_at
  consume-WasMinted m past k stored (refused e) a h ih = ih stored h
  consume-WasMinted m past k stored (consumed tokens') a h ih =
      let success = attempt-Success m (tokens_after past) tokens' a in
      let h' = rw (success.left, lookup-insert m.token k _ (tokens_after past)) at h in
      elim (Bool-cases (m.token == k)) [
        | inl e ↦
            let same = some-injective _ _ (rw e at h') in
            let before = ih success.stored (rw ((==_iff m.token k).0 e) at success.found) in
            rw
              (
                ← ap (λ (x : StoredToken). x.experiment_id) same,
                ← ap (λ (x : StoredToken). x.spec_hash) same,
                ← ap (λ (x : StoredToken). x.expires_at) same,
              )
              before
        | inr e ↦ ih stored (rw e at h')
      ]

  stored-WasMinted :
      (past : List Action) (k : ℕ) (stored : StoredToken)
      → lookup k (tokens_after past) ≡ some stored
      → WasMinted past k stored.experiment_id stored.spec_hash stored.expires_at
  unfolding tokens_after lookup
  stored-WasMinted [] k stored h = absurd (ground arith)
  stored-WasMinted (mint m ∷ past) k stored h =
      mint-WasMinted m past k stored h (stored-WasMinted past k stored)
  stored-WasMinted (consume m ∷ past) k stored h =
      consume-WasMinted m past k stored (attempt m (tokens_after past)) refl h
        (stored-WasMinted past k)

  -- Some mint of the history drew the token for this experiment and for a spec with this digest, at
  -- most the lifetime of a token before `now`.
  abbrev pub WasApproved : List Action → Minting → Type 0
  WasApproved [] c = ⊥
  WasApproved (consume m ∷ past) c = WasApproved past c
  WasApproved (mint m ∷ past) c =
      ((m.token ≡ c.token)
        × (m.experiment_id ≡ c.experiment_id)
        × (hash_spec m.spec ≡ hash_spec c.spec)
        × (c.now ≤ m.now + token_ttl_seconds))
      ⊎ WasApproved past c

  minted-WasApproved :
      (past : List Action) (c : Minting) (expires_at : ℕ)
      → WasMinted past c.token c.experiment_id (hash_spec c.spec) expires_at
      → c.now ≤ expires_at
      → WasApproved past c
  minted-WasApproved [] c x w l = w
  minted-WasApproved (consume m ∷ past) c x w l = minted-WasApproved past c x w l
  minted-WasApproved (mint m ∷ past) c x (inl (t, e, h, d)) l = inl (t, e, h, omega arith)
  minted-WasApproved (mint m ∷ past) c x (inr w) l = inr (minted-WasApproved past c x w l)

  -- A consumption that succeeds was approved: an earlier mint drew this token for this experiment
  -- and for a spec with the same digest, at most 300 seconds before.
  pub consumed-WasApproved :
      (past : List Action) (c : Minting) {tokens' : Assoc StoredToken}
      → attempt c (tokens_after past) ≡ consumed tokens'
      → WasApproved past c
  consumed-WasApproved past c {tokens'} h =
      let s = attempt-Success c (tokens_after past) tokens' h in
      let w = stored-WasMinted past c.token s.stored s.found in
      minted-WasApproved past c s.stored.expires_at (rw (s.own, s.same_spec) at w) s.in_time
