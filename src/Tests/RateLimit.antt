-- ===== src/Tests/RateLimit.antt =====
-- The rate limiter's theorems at concrete calls.
use konvo_pro.Shared.{◌-◌, ◌≡◌, min, refl, List, [], ◌∷◌, none, some, lookup, insert}
use konvo_pro.RateLimit.{send_envelope_bucket, one_token, bits, nearest, round, refill, try_consume}
use konvo_pro.RateLimit.Capacity.{Call, IsCapped, IsConsumed, run_calls}
use konvo_pro.RateLimit.Burst.{granted, granted-burst}

abbrev calls : List Call
calls =
    record { device = "a"; now = 1000 }
    ∷ record { device = "b"; now = 1000 }
    ∷ record { device = "a"; now = 1250 }
    ∷ []

c_is_new : lookup "c" (run_calls send_envelope_bucket [] calls) ≡ none
unfolding run_calls try_consume refill round nearest bits lookup insert
c_is_new = refl

granted-burst_example :
    let b = run_calls send_envelope_bucket [] calls in
    (granted 60 b "c" 900 ≡ min 60 50)
    × IsCapped send_envelope_bucket b
    × IsConsumed send_envelope_bucket b "c" 900
granted-burst_example = granted-burst calls "c" 900 60 c_is_new

-- The last of ten refills of 10 ms from an empty bucket leaves 0.9999999999999999 tokens.
tenth_refill :
    (refill
      (some (record { tokens = 4150517416584648704; last_refill_ms = 90 }))
      100
      send_envelope_bucket).tokens
    ≡ one_token - 512
unfolding refill round nearest bits
tenth_refill = refl
