-- ===== src/RateLimit.antt =====
-- apps/api/src/ws/rate-limit.ts: the token bucket of each device. A count of tokens is a double,
-- written as a multiple of 2^-62, the place of the last bit of 0.001 and so of every double that the
-- code computes: what exceeds 53 bits is rounded to the nearest, ties to even, as IEEE 754 has it.
-- Times are whole milliseconds, the capacity and the rate whole numbers.
mod Entries
pub mod Burst
pub mod Capacity
use konvo_pro.Shared.{
  ℕ, zero, suc, ◌+◌, ◌-◌, ◌*◌, ◌/◌, ◌%◌, ◌^◌, min, Bool, true, false, ◌&&◌, ◌||◌, ◌==◌, ltb, leb,
  Option, none, some, List, [], if◌then◌else◌, String, lookup, insert,
}

-- `tokens` in units of 2^-62.
pub record TokenBucketState : Type 0 where
  pub tokens : ℕ
  pub last_refill_ms : ℕ

pub record TokenBucketOpts : Type 0 where
  pub capacity : ℕ
  pub refill_per_second : ℕ

abbrev pub send_envelope_bucket : TokenBucketOpts
send_envelope_bucket = record { capacity = 50; refill_per_second = 10 }

abbrev pub Buckets : Type 0
Buckets = List (String × TokenBucketState)

-- The double 1.
abbrev pub one_token : ℕ
one_token = 4611686018427387904

-- How many binary digits a number has, where the fuel is no less.
unfoldable pub bits : ℕ → ℕ → ℕ
bits zero n = 0
bits (suc fuel) zero = 0
bits (suc fuel) (suc n) = suc (bits fuel (suc n / 2))

-- The multiple of `unit` nearest to `num / den`, of two the even one.
unfoldable pub nearest : ℕ → ℕ → ℕ → ℕ
nearest num den unit =
    let q = num / (den * unit) in
    let twice = 2 * (num % (den * unit)) in
    if ltb (den * unit) twice || (twice == den * unit) && (q % 2 == 1)
    then (q + 1) * unit
    else q * unit

-- The double nearest to `num / den`.
unfoldable pub round : ℕ → ℕ → ℕ
round num den = nearest num den (2 ^ (bits (num / den) (num / den) - 53))

-- A full bucket for a new device, else the refill since the last call. `now - last` is 0 where the
-- clock went back, as `Math.max(0, …)` has it.
unfoldable pub refill : Option TokenBucketState → ℕ → TokenBucketOpts → TokenBucketState
refill none now opts = record { tokens = opts.capacity * one_token; last_refill_ms = now }
refill (some s) now opts =
    let elapsed_ms = now - s.last_refill_ms in
    let refilled = round (round (elapsed_ms * one_token) 1000 * opts.refill_per_second) 1 in
    record {
      tokens = min (opts.capacity * one_token) (round (s.tokens + refilled) 1);
      last_refill_ms = now;
    }

pub record Consumed : Type 0 where
  pub allowed : Bool
  pub buckets : Buckets

-- A double that is at least 1, less 1, is a double again: nothing is rounded.
unfoldable pub try_consume : Buckets → String → ℕ → TokenBucketOpts → Consumed
unfolding refill
try_consume buckets device_id now opts =
    let state = refill (lookup device_id buckets) now opts in
    if leb one_token state.tokens
    then record {
      allowed = true;
      buckets = insert device_id (record state { tokens = state.tokens - one_token }) buckets;
    }
    else record { allowed = false; buckets = insert device_id state buckets }

-- `resetBuckets`
pub reset_buckets : Buckets → Buckets
reset_buckets buckets = []
