-- ===== src/Llm/Saved.antt =====
-- What the gateway resolves after the settings were written: `_persist_learned_budget` of
-- backend/llm/__init__.py and `save_provider` of backend/settings/__init__.py.
use ai_powered_research_work.Prelude.{
  ℕ, ◌≡◌, refl, ap, sym, ◌∙◌, subst, inl, inr, Bool, true, false, not, ◌&&◌, Option, none, some, [],
  ◌∷◌, ◌++◌, arith, Text, codes, starts_with, drop, length, All, any, ◌==◌, if◌then◌else◌,
  Bool-cases, Option-cases,
}
use ai_powered_research_work.Prelude.Dict.{Dict, get, put, get-put}
use ai_powered_research_work.Prelude.Fresh.{mem_text}
use ai_powered_research_work.Llm.Models.{
  Tier, primary, auxiliary, ProviderEntry, ApiKeys, ProviderOverride, ProviderCredentials, Resolved,
}
use ai_powered_research_work.Llm.Resolve.{
  Resolution, resolved, failed, before_slash, after_slash, model_string, filled_or, wire_model,
  resolved_with, resolve_tier, provider_prefixes, providers_of, save_model_budget, remove_prefix,
  persist_learned_budget, save_provider, decrypted, encrypted, only_filled, is_filled,
  local_providers, with_model, get_or_create_row, encrypted, only_filled, is_filled,
  local_providers, with_model, get_or_create_row,
}

-- A text without a slash.
abbrev pub NoSlash : Text → Type 0
NoSlash t = All (λ c. (c == 47) ≡ false) t

before_slash-joined : (p m : Text) → NoSlash p → before_slash ((p ++ codes "/") ++ m) ≡ p
unfolding before_slash
before_slash-joined [] m h = refl
before_slash-joined (c ∷ p) m h = rw (h.0, before_slash-joined p m h.1) refl

after_slash-joined : (p m : Text) → NoSlash p → after_slash ((p ++ codes "/") ++ m) ≡ m
unfolding after_slash
after_slash-joined [] m h = refl
after_slash-joined (c ∷ p) m h = rw (h.0, after_slash-joined p m h.1) refl

-- Joined again the parts of a text with a slash give the text.
joined_slash :
    (t : Text) → any (λ c. c == 47) t ≡ true → (before_slash t ++ codes "/") ++ after_slash t ≡ t
unfolding before_slash after_slash
joined_slash [] h = absurd (ground arith)
joined_slash (c ∷ t) h = elim (Bool-cases (c == 47)) [
  | inl e ↦ let same : c ≡ 47 = ground arith in rw (e, same) refl
  | inr e ↦ rw e (ap (λ l. c ∷ l) (joined_slash t (rw e at h)))
]

starts_with-append : (s t : Text) → starts_with s (s ++ t) ≡ true
starts_with-append [] t = refl
starts_with-append (c ∷ s) t = ground (arith, starts_with-append s t)

drop-append : (s t : Text) → drop (length s) (s ++ t) ≡ t
drop-append [] t = refl
drop-append (c ∷ s) t = drop-append s t

remove_prefix-append : (s t : Text) → remove_prefix s (s ++ t) ≡ t
remove_prefix-append s t = rw (starts_with-append s t) (drop-append s t)

-- The key that is written is the one that is read.
persisted_key :
    (key : Text)
    → any (λ c. c == 47) key ≡ true
    → (before_slash key ++ codes "/") ++ remove_prefix (before_slash key ++ codes "/") key ≡ key
persisted_key key h =
    ap (λ t. (before_slash key ++ codes "/") ++ remove_prefix (before_slash key ++ codes "/") t)
      (sym (joined_slash key h))
    ∙ (ap (λ t. (before_slash key ++ codes "/") ++ t)
          (remove_prefix-append (before_slash key ++ codes "/") (after_slash key))
        ∙ joined_slash key h)

resolution_of : Resolved → Resolution → Resolved
resolution_of r (resolved s) = s
resolution_of r (failed e) = r

resolved-injective : {r s : Resolved} → resolved r ≡ resolved s → r ≡ s
unfolding resolution_of
resolved-injective {r} h = ap (resolution_of r) h

-- What a tier that resolves has found.
record Found (decrypt : Text → Text → Text) (tier : Tier) (keys : Option ApiKeys) (r : Resolved)
    : Type 0 where
  key : Text
  entry : ProviderEntry
  model : Text
  has_key : model_string tier keys ≡ some key
  has_entry : get (before_slash key) (providers_of keys) ≡ some entry
  has_model : wire_model (get (before_slash key) provider_prefixes) (after_slash key) ≡ some model
  is_r : r ≡ record {
    model = model;
    api_key = decrypted decrypt entry.secret;
    base_url = entry.base_url;
    budget = get key entry.model_budgets;
    provider = some (before_slash key);
    model_key = some key;
  }

resolve_tier-Found :
    (decrypt : Text → Text → Text) (tier : Tier) (keys : Option ApiKeys) (r : Resolved)
    → resolve_tier decrypt tier keys ≡ resolved r
    → Found decrypt tier keys r
unfolding resolve_tier
resolve_tier-Found decrypt tier keys r h = elim (Option-cases (model_string tier keys)) [
  | inl e ↦ let k = rw e at h in absurd (ground arith)
  | inr (key, e) ↦ elim (Option-cases (get (before_slash key) (providers_of keys))) [
    | inl f ↦ let k = rw (e, f) at h in absurd (ground arith)
    | inr (entry, f) ↦
        elim (Option-cases
          (wire_model (get (before_slash key) provider_prefixes) (after_slash key))) [
            | inl g ↦ let k = rw (e, f, g) at h in absurd (ground arith)
            | inr (model, g) ↦ record {
              key = key;
              entry = entry;
              model = model;
              has_key = e;
              has_entry = f;
              has_model = g;
              is_r = sym (resolved-injective (rw (e, f, g) at h));
            }
          ]
  ]
]

model_string-providers :
    (tier : Tier) (row : ApiKeys) (d : Dict ProviderEntry)
    → model_string tier (some (record row { providers = d })) ≡ model_string tier (some row)
unfolding model_string
model_string-providers primary row d = refl
model_string-providers auxiliary row d = refl

persisted_row :
    (row : ApiKeys) (key : Text) (entry : ProviderEntry) (budget : ℕ)
    → get (before_slash key) row.providers ≡ some entry
    → any (λ c. c == 47) key ≡ true
    → persist_learned_budget (before_slash key) key budget (some row) ≡ record row {
      providers =
          put
            (before_slash key)
            (record entry { model_budgets = put key budget entry.model_budgets })
            row.providers;
    }
unfolding persist_learned_budget save_model_budget
persisted_row row key entry budget f slash = rw (persisted_key key slash, f) refl

-- What a row resolves to, by what it has.
resolve_tier-reads :
    (decrypt : Text → Text → Text) (tier : Tier) (row : ApiKeys) (key model : Text)
    (entry : ProviderEntry)
    → model_string tier (some row) ≡ some key
    → get (before_slash key) row.providers ≡ some entry
    → wire_model (get (before_slash key) provider_prefixes) (after_slash key) ≡ some model
    → resolve_tier decrypt tier (some row)
      ≡ resolved_with decrypt (before_slash key) key entry (some model)
unfolding resolve_tier
resolve_tier-reads decrypt tier row key model entry e f g = rw (e, f, g) refl

-- When a tier resolves and its model string has a slash: once the budget that a rate limit taught
-- is persisted, the tier resolves to the same request with that budget.
pub resolve_tier-persist :
    (decrypt : Text → Text → Text) (tier : Tier) (row : ApiKeys) (r : Resolved)
    (provider model_key : Text) (budget : ℕ)
    → resolve_tier decrypt tier (some row) ≡ resolved r
    → r.provider ≡ some provider
    → r.model_key ≡ some model_key
    → any (λ c. c == 47) model_key ≡ true
    → resolve_tier decrypt tier (some (persist_learned_budget provider model_key budget (some row)))
      ≡ resolved (record r { budget = some budget })
resolve_tier-persist decrypt tier row r provider model_key budget h p k slash =
    let found = resolve_tier-Found decrypt tier (some row) r h in
    let provider_is : provider ≡ before_slash found.key =
      ground (arith, p, ap Resolved.provider found.is_r) in
    let key_is : model_key ≡ found.key = ground (arith, k, ap Resolved.model_key found.is_r) in
    let slashed : any (λ c. c == 47) found.key ≡ true =
      subst (λ t. any (λ c. c == 47) t ≡ true) key_is slash in
    let entry = found.entry in
    let key = found.key in
    let entry' : ProviderEntry = record entry {
      model_budgets = put key budget entry.model_budgets;
    } in
    ap
      (λ t. resolve_tier decrypt tier (some (persist_learned_budget t model_key budget (some row))))
      provider_is
    ∙ (ap
          (λ t.
            resolve_tier decrypt tier
              (some (persist_learned_budget (before_slash key) t budget (some row))))
          key_is
        ∙ (ap (λ t. resolve_tier decrypt tier (some t))
              (persisted_row row key entry budget found.has_entry slashed)
            ∙ (resolve_tier-reads decrypt tier
                  (record row { providers = put (before_slash key) entry' row.providers }) key
                  found.model entry'
                  (model_string-providers tier row (put (before_slash key) entry' row.providers)
                    ∙ found.has_key)
                  (get-put (before_slash key) entry' row.providers) found.has_model
                ∙ rw (get-put key budget entry.model_budgets)
                    (ap (λ s. resolved (record s { budget = some budget })) (sym found.is_r)))))

joined-filled :
    (p m : Text) (other : Option Text)
    → filled_or (some ((p ++ codes "/") ++ m)) other ≡ some ((p ++ codes "/") ++ m)
joined-filled [] m other = refl
joined-filled (c ∷ p) m other = refl

model_string-with_model :
    (tier : Tier) (p m : Text) (row : ApiKeys)
    → model_string tier (some (with_model tier ((p ++ codes "/") ++ m) row))
      ≡ some ((p ++ codes "/") ++ m)
unfolding model_string
model_string-with_model primary p m row = joined-filled p m none
model_string-with_model auxiliary p m row = joined-filled p m _

with_model-providers :
    (tier : Tier) (key : Text) (row : ApiKeys) → (with_model tier key row).providers ≡ row.providers
with_model-providers primary key row = refl
with_model-providers auxiliary key row = refl

decrypted-encrypted :
    (encrypt : Text → Text × Text) (decrypt : Text → Text → Text) (key : Option Text)
    → ((t : Text) → decrypt (encrypt t).0 (encrypt t).1 ≡ t)
    → decrypted decrypt (encrypted encrypt key) ≡ key
decrypted-encrypted encrypt decrypt none h = refl
decrypted-encrypted encrypt decrypt (some t) h = rw (h t) refl

-- The request that the credentials of a provider stand for.
abbrev pub request_of : Text → Text → ProviderCredentials → Resolved
request_of provider prefix credentials =
    let key = (provider ++ codes "/") ++ credentials.model in
    record {
      model = (prefix ++ codes "/") ++ credentials.model;
      api_key = only_filled credentials.api_key;
      base_url = only_filled credentials.base_url;
      budget = get key credentials.model_budgets;
      provider = some provider;
      model_key = some key;
    }

abbrev saved_row : (Text → Text × Text) → Text → ProviderCredentials → ApiKeys → ApiKeys
saved_row encrypt provider credentials row =
    with_model credentials.tier ((provider ++ codes "/") ++ credentials.model) (record row {
      providers =
          put provider
            (record {
              secret = encrypted encrypt (only_filled credentials.api_key);
              base_url = only_filled credentials.base_url;
              model_budgets = credentials.model_budgets;
            })
            row.providers;
    })

guards-some :
    (a b c : Bool) (x : ApiKeys) {y : ApiKeys}
    → (if a then none else if b then none else if c then some x else none) ≡ some y
    → y ≡ x
guards-some true b c x h = absurd (ground arith)
guards-some false true c x h = absurd (ground arith)
guards-some false false true x h = ground arith
guards-some false false false x h = absurd (ground arith)

save_provider-cases :
    (encrypt : Text → Text × Text) (valid : ProviderOverride → Bool) (provider : Text)
    (credentials : ProviderCredentials) (keys : Option ApiKeys) {saved : ApiKeys}
    → save_provider encrypt valid provider credentials keys ≡ some saved
    → saved ≡ saved_row encrypt provider credentials (get_or_create_row keys)
unfolding save_provider
save_provider-cases encrypt valid provider credentials keys h =
    guards-some (not (mem_text provider local_providers) && not (is_filled credentials.api_key))
      (mem_text provider local_providers && not (is_filled credentials.base_url)) (valid _)
      (saved_row encrypt provider credentials (get_or_create_row keys)) h

-- When decryption undoes encryption, and a provider whose name has a prefix and no slash was saved
-- for a tier: the tier resolves to the request of those credentials, the key and the URL as given
-- where they are not empty, and the budget that the credentials name for the model.
pub resolve_tier-save_provider :
    (encrypt : Text → Text × Text) (decrypt : Text → Text → Text) (valid : ProviderOverride → Bool)
    (provider prefix : Text) (credentials : ProviderCredentials) (keys : Option ApiKeys)
    {saved : ApiKeys}
    → ((t : Text) → decrypt (encrypt t).0 (encrypt t).1 ≡ t)
    → NoSlash provider
    → get provider provider_prefixes ≡ some prefix
    → save_provider encrypt valid provider credentials keys ≡ some saved
    → resolve_tier decrypt credentials.tier (some saved)
      ≡ resolved (request_of provider prefix credentials)
resolve_tier-save_provider encrypt decrypt valid provider prefix credentials keys back plain known
      h =
    let key = (provider ++ codes "/") ++ credentials.model in
    let row = get_or_create_row keys in
    let entry : ProviderEntry = record {
      secret = encrypted encrypt (only_filled credentials.api_key);
      base_url = only_filled credentials.base_url;
      model_budgets = credentials.model_budgets;
    } in
    let name : before_slash key ≡ provider = before_slash-joined provider credentials.model plain in
    rw (save_provider-cases encrypt valid provider credentials keys h) (
      resolve_tier-reads decrypt credentials.tier (saved_row encrypt provider credentials row) key
        ((prefix ++ codes "/") ++ credentials.model) entry
        (model_string-with_model credentials.tier provider credentials.model _)
        (rw (name, with_model-providers credentials.tier key _)
          (get-put provider entry row.providers))
        (rw (name, known, after_slash-joined provider credentials.model plain) refl)
      ∙ rw (name, decrypted-encrypted encrypt decrypt (only_filled credentials.api_key) back) refl)
