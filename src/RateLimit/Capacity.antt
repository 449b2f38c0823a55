-- ===== src/RateLimit/Capacity.antt =====
-- The buckets of apps/api/src/ws/rate-limit.ts stay within the burst, each device's on its own.
use mathlib.Core.Bool.{false≢true}
use konvo_pro.Shared.{
  ℕ, ◌+◌, ◌-◌, ◌*◌, ◌≤◌, ◌<◌, ◌≡◌, ◌≢◌, true, false, leb, Option, none, some, List, [], ◌∷◌, arith,
  String, str_eq, eq_iff, lookup, Bool-cases, ◌⊎◌, inl, inr, sym, ◌∙◌, subst,
}
use konvo_pro.RateLimit.{TokenBucketState, TokenBucketOpts, Buckets, one_token, refill, try_consume}
use konvo_pro.RateLimit.Entries.{cost, lookup-try_consume, lookup-try_consume_other}

-- A call for a device at a time.
pub record Call : Type 0 where
  pub device : String
  pub now : ℕ

module _ (opts : TokenBucketOpts) where
  unfoldable pub run_calls : Buckets → List Call → Buckets
  run_calls b [] = b
  run_calls b (k ∷ ks) = run_calls (try_consume b k.device k.now opts).buckets ks

  abbrev pub IsCapped : Buckets → Type 0
  IsCapped b =
      (d : String) (s : TokenBucketState)
      → lookup d b ≡ some s
      → s.tokens ≤ opts.capacity * one_token

  refill-capped :
      (o : Option TokenBucketState) (now : ℕ)
      → (refill o now opts).tokens ≤ opts.capacity * one_token
  unfolding refill
  refill-capped none now = omega arith
  refill-capped (some s) now = omega arith

  nothing-IsCapped : IsCapped []
  unfolding lookup
  nothing-IsCapped d s found = absurd (ground (arith, found))

  try_consume-IsCapped :
      (b : Buckets) (d : String) (now : ℕ)
      → IsCapped b
      → IsCapped (try_consume b d now opts).buckets
  try_consume-IsCapped b d now capped j s found = elim (Bool-cases (str_eq d j)) [
    | inl same ↦
        let e = (eq_iff d j).0 same in
        let after = (try_consume b d now opts).buckets in
        let found' = subst (λ x. lookup x after ≡ some s) (sym e) found in
        ground (arith, lookup-try_consume opts b d now, refill-capped (lookup d b) now)
    | inr other ↦
        let ne = λ (e : d ≡ j). false≢true (sym other ∙ (eq_iff d j).1 e) in
        capped j s (sym (lookup-try_consume_other opts b d j now ne) ∙ found)
  ]

  run_calls-IsCapped : (b : Buckets) (ks : List Call) → IsCapped b → IsCapped (run_calls b ks)
  unfolding run_calls
  run_calls-IsCapped b [] capped = capped
  run_calls-IsCapped b (k ∷ ks) capped =
      run_calls-IsCapped (try_consume b k.device k.now opts).buckets ks
        (try_consume-IsCapped b k.device k.now capped)

  -- What a call leaves: the device's bucket is dated `now`; allowed, it has room for the token that
  -- was taken, refused, it holds less than one; every other device keeps its bucket.
  pub record IsConsumed (b : Buckets) (d : String) (now : ℕ) : Type 0 where
    pub left : ℕ
    pub entry :
        lookup d (try_consume b d now opts).buckets
        ≡ some (record { tokens = left; last_refill_ms = now })
    pub spent :
        (((try_consume b d now opts).allowed ≡ true)
          × (left + one_token ≤ opts.capacity * one_token))
        ⊎ (((try_consume b d now opts).allowed ≡ false) × (left < one_token))
    pub others : (j : String) → d ≢ j → lookup j (try_consume b d now opts).buckets ≡ lookup j b

  pub allowed_lem :
      (b : Buckets) (d : String) (now : ℕ)
      → (try_consume b d now opts).allowed ≡ leb one_token (refill (lookup d b) now opts).tokens
  unfolding try_consume
  allowed_lem b d now = ground arith

  try_consume-IsConsumed : (b : Buckets) (d : String) (now : ℕ) → IsConsumed b d now
  try_consume-IsConsumed b d now =
      let tokens = (refill (lookup d b) now opts).tokens in
      record {
        left = tokens - cost opts (try_consume b d now opts).allowed;
        entry = lookup-try_consume opts b d now;
        spent = elim (Bool-cases (leb one_token tokens)) [
          | inl enough ↦
              inl (ground (arith, allowed_lem b d now, enough, refill-capped (lookup d b) now))
          | inr short ↦ inr (ground (arith, allowed_lem b d now, short))
        ];
        others = λ j ne. lookup-try_consume_other opts b d j now ne;
      }

  -- From no buckets, after any calls at any times, also where the clock goes back, every bucket is
  -- within the burst. A further call dates its device's bucket `now` and leaves every other device's
  -- as it is. If it is allowed, the bucket is left with one token less than at most the capacity; if
  -- it is refused, with less than one token.
  pub run_calls-IsConsumed :
      (ks : List Call) (d : String) (now : ℕ)
      → IsCapped (run_calls [] ks) × IsConsumed (run_calls [] ks) d now
  run_calls-IsConsumed ks d now =
      (run_calls-IsCapped [] ks nothing-IsCapped, try_consume-IsConsumed (run_calls [] ks) d now)
