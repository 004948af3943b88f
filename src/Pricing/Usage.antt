-- ===== src/Pricing/Usage.antt =====
-- What `normalize_actual_usage` accepts and returns.
use maibot_lunagentic_resear.Prelude.{
  ℤ, pos, ◌+ℤ◌, ◌-ℤ◌, ◌≤ℤ◌, int_laws, Exception, lrs_error, ok, err, Result-cases, ◌≡◌, ap, ◌∙◌,
  ◌⊎◌, inl, inr, arith,
}
use maibot_lunagentic_resear.Pricing.{actual, TokenUsage, normalize_actual_usage}

-- Counts are not negative and the cached and uncached prompt tokens are all of the prompt.
pub record IsNormalized (usage : TokenUsage) : Type 0 where
  pub prompt : pos 0 ≤ℤ usage.prompt_tokens
  pub completion : pos 0 ≤ℤ usage.completion_tokens
  pub hit : pos 0 ≤ℤ usage.cache_hit_tokens
  pub miss : pos 0 ≤ℤ usage.cache_miss_tokens
  pub split : usage.cache_hit_tokens +ℤ usage.cache_miss_tokens ≡ usage.prompt_tokens

-- The counts that may be charged.
pub record IsChargeable (prompt completion hit miss : ℤ) : Type 0 where
  pub prompt_nonneg : pos 0 ≤ℤ prompt
  pub completion_nonneg : pos 0 ≤ℤ completion
  pub hit_nonneg : pos 0 ≤ℤ hit
  pub miss_nonneg : pos 0 ≤ℤ miss
  pub within_prompt : hit +ℤ miss ≤ℤ prompt

abbrev pub normalized_usage : ℤ → ℤ → ℤ → ℤ → TokenUsage
normalized_usage prompt completion hit miss = record {
  prompt_tokens = prompt;
  completion_tokens = completion;
  cache_hit_tokens = hit;
  cache_miss_tokens = miss +ℤ (prompt -ℤ hit -ℤ miss);
  source = actual;
}

module _ (prompt completion hit miss : ℤ) where
  pub normalize_actual_usage-ok :
      IsChargeable prompt completion hit miss
      → normalize_actual_usage prompt completion hit miss
        ≡ ok (normalized_usage prompt completion hit miss)
  unfolding normalize_actual_usage
  normalize_actual_usage-ok c = ground arith

  normalize_actual_usage-inv :
      {usage : TokenUsage}
      → normalize_actual_usage prompt completion hit miss ≡ ok usage
      → IsChargeable prompt completion hit miss
  unfolding normalize_actual_usage
  normalize_actual_usage-inv h = ground arith

  normalize_actual_usage-err :
      {error : Exception}
      → normalize_actual_usage prompt completion hit miss ≡ err error
      → error ≡ lrs_error "invalid_usage"
  unfolding normalize_actual_usage
  normalize_actual_usage-err h = ground arith

  pub normalized_usage-IsNormalized :
      IsChargeable prompt completion hit miss
      → IsNormalized (normalized_usage prompt completion hit miss)
  normalized_usage-IsNormalized c = record {
    prompt = c.prompt_nonneg;
    completion = c.completion_nonneg;
    hit = c.hit_nonneg;
    miss = omega (int_laws, c.within_prompt, c.miss_nonneg);
    split = omega int_laws;
  }

  abbrev pub NormalizeOutcome : Type 0
  NormalizeOutcome =
      (IsChargeable prompt completion hit miss
        × (normalize_actual_usage prompt completion hit miss
            ≡ ok (normalized_usage prompt completion hit miss))
        × IsNormalized (normalized_usage prompt completion hit miss))
      ⊎ ((¬ IsChargeable prompt completion hit miss)
          × (normalize_actual_usage prompt completion hit miss ≡ err (lrs_error "invalid_usage")))

  -- A usage is accepted exactly if no count is negative and hits and misses fit in the prompt. It
  -- then keeps prompt, completion and hits, and counts the rest of the prompt as misses, so that
  -- hits and misses make up the prompt. Any other usage raises the `LRSError` "invalid_usage".
  pub normalize_actual_usage_cases : NormalizeOutcome
  normalize_actual_usage_cases =
      elim (Result-cases (normalize_actual_usage prompt completion hit miss)) [
        | inl (usage, e) ↦
            let c = normalize_actual_usage-inv e in
            inl (c, normalize_actual_usage-ok c, normalized_usage-IsNormalized c)
        | inr (error, e) ↦
            inr (
              (λ c. cc (e, normalize_actual_usage-ok c)),
              e ∙ ap err (normalize_actual_usage-err e),
            )
      ]

-- Normalizing a normalized usage again changes no count.
pub normalize_actual_usage_idem :
    (usage : TokenUsage)
    → IsNormalized usage
    → (normalized : TokenUsage) × (normalize_actual_usage usage.prompt_tokens
          usage.completion_tokens usage.cache_hit_tokens usage.cache_miss_tokens
        ≡ ok normalized)
      × (normalized ≡ record usage { source = actual })
normalize_actual_usage_idem usage n = (
  normalized_usage usage.prompt_tokens usage.completion_tokens usage.cache_hit_tokens
      usage.cache_miss_tokens,
  normalize_actual_usage-ok _ _ _ _ (record {
    prompt_nonneg = n.prompt;
    completion_nonneg = n.completion;
    hit_nonneg = n.hit;
    miss_nonneg = n.miss;
    within_prompt = grind (int_laws, n.split);
  }),
  ap
      (λ (m : ℤ). record {
        prompt_tokens = usage.prompt_tokens;
        completion_tokens = usage.completion_tokens;
        cache_hit_tokens = usage.cache_hit_tokens;
        cache_miss_tokens = m;
        source = actual;
      })
      (grind (int_laws, n.split)),
)
