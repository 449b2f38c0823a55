-- ===== src/RateLimit/Entries.antt =====
-- The entries of the buckets of apps/api/src/ws/rate-limit.ts after a call.
use konvo_pro.Shared.{
  ℕ, ◌-◌, ◌≡◌, ◌≢◌, refl, Bool, true, false, Option, none, some, arith, String, eq_iff, eq_refl,
  lookup, lookup-insert,
}
use konvo_pro.RateLimit.{TokenBucketState, TokenBucketOpts, Buckets, one_token, refill, try_consume}

module _ (opts : TokenBucketOpts) where
  abbrev pub cost : Bool → ℕ
  cost true = one_token
  cost false = 0

  pub refill-last_refill_ms :
      (o : Option TokenBucketState) (now : ℕ) → (refill o now opts).last_refill_ms ≡ now
  unfolding refill
  refill-last_refill_ms none now = refl
  refill-last_refill_ms (some s) now = refl

  -- The entry of the device after a call.
  pub lookup-try_consume :
      (b : Buckets) (d : String) (now : ℕ)
      → let r = try_consume b d now opts in
        lookup d r.buckets
        ≡ some (record {
          tokens = (refill (lookup d b) now opts).tokens - cost r.allowed;
          last_refill_ms = now;
        })
  unfolding try_consume
  lookup-try_consume b d now =
      let state = refill (lookup d b) now opts in
      ground (
        arith,
        eq_refl d,
        refill-last_refill_ms (lookup d b) now,
        lookup-insert d d (record state { tokens = state.tokens - one_token }) b,
        lookup-insert d d state b,
      )

  -- A call for one device leaves every other device's bucket as it is.
  pub lookup-try_consume_other :
      (b : Buckets) (d j : String) (now : ℕ)
      → d ≢ j
      → lookup j (try_consume b d now opts).buckets ≡ lookup j b
  unfolding try_consume
  lookup-try_consume_other b d j now ne =
      let state = refill (lookup d b) now opts in
      ground (
        arith,
        eq_iff d j,
        lookup-insert d j (record state { tokens = state.tokens - one_token }) b,
        lookup-insert d j state b,
      )
