-- ===== src/RateLimit/Burst.antt =====
-- A burst of a device in one millisecond, in the buckets of apps/api/src/ws/rate-limit.ts.
use konvo_pro.Shared.{
  ℕ, zero, suc, ◌+◌, ◌-◌, ◌*◌, ◌≤◌, ◌≡◌, min, Bool, true, false, ◌&&◌, ◌==◌, ==_iff, if◌then◌else◌,
  Option, none, some, List, [], arith, String, lookup, Bool-cases, inl, inr, refl, sym, ap, ◌∙◌,
  subst,
}
use konvo_pro.RateLimit.{
  TokenBucketState, Buckets, send_envelope_bucket, one_token, bits, nearest, round, refill,
  try_consume,
}
use konvo_pro.RateLimit.Entries.{cost, lookup-try_consume}
use konvo_pro.RateLimit.Capacity.{
  Call, run_calls, IsCapped, IsConsumed, run_calls-IsConsumed, allowed_lem,
}

-- The whole numbers of tokens up to `n` are doubles.
are_exact : ℕ → Bool
are_exact zero = true
are_exact (suc n) = (round (suc n * one_token) 1 == suc n * one_token) && are_exact n

fifty-are_exact : are_exact 50 ≡ true
unfolding are_exact round nearest bits
fifty-are_exact = refl

are_exact-round :
    (n m : ℕ) → are_exact n ≡ true → suc m ≤ n → round (suc m * one_token) 1 ≡ suc m * one_token
unfolding are_exact
are_exact-round zero m e fits = absurd (omega (arith, fits))
are_exact-round (suc n) m e fits = elim (Bool-cases (m == n)) [
  | inl same ↦
      let same' : m ≡ n = (==_iff m n).0 same in
      let there : round (suc n * one_token) 1 ≡ suc n * one_token =
        ground (arith, e, ==_iff (round (suc n * one_token) 1) (suc n * one_token)) in
      subst (λ (k : ℕ). round (suc k * one_token) 1 ≡ suc k * one_token) (sym same') there
  | inr other ↦ are_exact-round n m (ground (arith, e)) (ground (arith, fits, other))
]

no_tokens : round 0 1 ≡ 0
unfolding round nearest bits
no_tokens = refl

no_time : round (round 0 1000 * 10) 1 ≡ 0
unfolding round nearest bits
no_time = refl

round_whole : (m : ℕ) → m ≤ 50 → round (m * one_token) 1 ≡ m * one_token
round_whole zero fits = no_tokens
round_whole (suc m) fits = are_exact-round 50 m fifty-are_exact fits

-- How many of `n` calls for a device at one time are allowed.
pub granted : ℕ → Buckets → String → ℕ → ℕ
granted zero b d now = 0
granted (suc n) b d now =
    let r = try_consume b d now send_envelope_bucket in
    let rest = granted n r.buckets d now in if r.allowed then suc rest else rest

abbrev whole : ℕ → ℕ → TokenBucketState
whole m now = record { tokens = m * one_token; last_refill_ms = now }

refill-whole :
    (m now : ℕ)
    → m ≤ 50
    → (refill (some (whole m now)) now send_envelope_bucket).tokens ≡ m * one_token
unfolding refill
refill-whole m now fits =
    let idle : now - now ≡ 0 = omega arith in
    let added = ap (λ (k : ℕ). round (round (k * one_token) 1000 * 10) 1) idle ∙ no_time in
    let unchanged : m * one_token + 0 ≡ m * one_token = omega arith in
    let sum =
      ap (λ (k : ℕ). round (m * one_token + k) 1) added
      ∙ ap (λ (k : ℕ). round k 1) unchanged
      ∙ round_whole m fits in
    let fits' : m * one_token ≤ 50 * one_token = omega (arith, fits) in
    ap (λ (k : ℕ). min (50 * one_token) k) sum ∙ (omega (arith, fits'))

-- The bucket after a call at the same time, where it held `m` tokens and was left with `k`.
refill-next :
    (k : ℕ) (b : Buckets) (d : String) (now : ℕ)
    → k ≤ 50
    → let r = try_consume b d now send_envelope_bucket in
      (refill (lookup d b) now send_envelope_bucket).tokens - cost send_envelope_bucket r.allowed
        ≡ k * one_token
      → (refill (lookup d r.buckets) now send_envelope_bucket).tokens ≡ k * one_token
refill-next k b d now fits left =
    ap (λ (o : Option TokenBucketState). (refill o now send_envelope_bucket).tokens)
      (lookup-try_consume send_envelope_bucket b d now
        ∙ ap (λ (t : ℕ). some (record { tokens = t; last_refill_ms = now })) left)
    ∙ refill-whole k now fits

-- A bucket that holds `m` tokens now allows `m` calls and no more.
granted-whole :
    (n m : ℕ) (b : Buckets) (d : String) (now : ℕ)
    → m ≤ 50
    → (refill (lookup d b) now send_envelope_bucket).tokens ≡ m * one_token
    → granted n b d now ≡ min n m
unfolding granted
granted-whole zero m b d now fits holds = omega arith
granted-whole (suc n) zero b d now fits holds =
    let r = try_consume b d now send_envelope_bucket in
    let refused : r.allowed ≡ false =
      ground (arith, allowed_lem send_envelope_bucket b d now, holds) in
    let next = refill-next 0 b d now fits (ground (arith, refused, holds)) in
    let rest = granted-whole n zero r.buckets d now fits next in ground (arith, refused, rest)
granted-whole (suc n) (suc m) b d now fits holds =
    let r = try_consume b d now send_envelope_bucket in
    let allowed : r.allowed ≡ true =
      ground (arith, allowed_lem send_envelope_bucket b d now, holds) in
    let fits' : m ≤ 50 = omega (arith, fits) in
    let next = refill-next m b d now fits' (ground (arith, allowed, holds)) in
    let rest = granted-whole n m r.buckets d now fits' next in ground (arith, allowed, rest)

-- For a device without a bucket, after any calls of others and at any time, exactly fifty of the calls
-- of one millisecond are allowed. Every bucket is within that burst, also where the clock goes back;
-- a call dates its device's bucket, leaves in it one token less than at most fifty if it is allowed,
-- less than one if it is refused, and leaves every other device's bucket as it is.
pub granted-burst :
    (ks : List Call) (d : String) (now n : ℕ)
    → lookup d (run_calls send_envelope_bucket [] ks) ≡ none
    → let b = run_calls send_envelope_bucket [] ks in
      (granted n b d now ≡ min n 50)
      × IsCapped send_envelope_bucket b
      × IsConsumed send_envelope_bucket b d now
unfolding refill
granted-burst ks d now n missing =
    let b = run_calls send_envelope_bucket [] ks in
    let (capped, consumed) = run_calls-IsConsumed send_envelope_bucket ks d now in
    (granted-whole n 50 b d now (omega arith) (ground (arith, missing)), capped, consumed)
