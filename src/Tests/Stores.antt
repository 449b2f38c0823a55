-- ===== src/Tests/Stores.antt =====
-- The theorems on pinned identities and on Redis listeners at concrete calls.
use konvo_pro.Shared.{◌≡◌, ◌≢◌, refl, true, none, some, List, [], ◌∷◌, String, lookup, ◌⊎◌}
use konvo_pro.Crypto.{Bytes}
use konvo_pro.Trust.Pins.{
  RemoteIdentity, unchanged, changed, get, TrustOp, sees, distrusts, trust_run,
  record_first_sight_or_detect_change,
}
use konvo_pro.Trust.Pinning.{register_run, trust_run-refines, record_first_sight-IsPinned}
use konvo_pro.Publisher.Channels.{
  new_publisher, adds, removes, begin_add, end_add, dispatch, listen_run,
}
use konvo_pro.Publisher.Listening.{new_publisher-IsListening}
use konvo_pro.Publisher.Delivery.{list_run, listen_run-refines}
use konvo_pro.Publisher.Races.{first_call, overtaken, end_add-orphan}

abbrev ada : String
ada = "0b4f2c1e-0000-4000-8000-000000000001"

abbrev phone : String
phone = "0b4f2c1e-0000-4000-8000-000000000002"

abbrev calls : List TrustOp
calls = sees ada phone (2 ∷ []) 20 ∷ distrusts ada phone none 21 ∷ []

no_pin : get [] ada phone ≡ none
unfolding get lookup
no_pin = refl

trust_run-refines_example :
    get (trust_run [] (sees ada phone (1 ∷ []) 10 ∷ calls)) ada phone
    ≡ register_run ada phone (get [] ada phone) (sees ada phone (1 ∷ []) 10 ∷ calls)
trust_run-refines_example =
    trust_run-refines ada phone refl refl [] (sees ada phone (1 ∷ []) 10 ∷ calls)
      ((refl, refl), ((refl, refl), ((refl, refl), tt)))

record_first_sight-IsPinned_example :
    let later = trust_run [] (sees ada phone (1 ∷ []) 10 ∷ calls) in
    let s = record_first_sight_or_detect_change later ada phone (3 ∷ []) 30 in
    (r : RemoteIdentity) × (r.identity_pub ≡ 1 ∷ [])
    × (r.first_seen_at ≡ 10)
    × (s.pins ≡ later)
    × ((◌≡◌ {A = Bytes} (3 ∷ []) (1 ∷ []) × (s.outcome ≡ unchanged r))
        ⊎ (◌≢◌ {A = Bytes} (3 ∷ []) (1 ∷ []) × (s.outcome ≡ changed r (3 ∷ []))))
record_first_sight-IsPinned_example =
    record_first_sight-IsPinned ada phone refl refl [] (1 ∷ []) 10 calls no_pin
      ((refl, refl), ((refl, refl), tt)) (refl, (refl, tt)) (3 ∷ []) 30

listen_run-refines_example :
    dispatch
      (listen_run new_publisher (adds "room:a" 1 ∷ adds "room:a" 2 ∷ removes "room:a" 1 ∷ []))
      "room:a"
    ≡ list_run "room:a"
        (adds "room:a" 1 ∷ adds "room:a" 2 ∷ removes "room:a" 1 ∷ [])
        (dispatch new_publisher "room:a")
listen_run-refines_example =
    listen_run-refines new_publisher (adds "room:a" 1 ∷ adds "room:a" 2 ∷ removes "room:a" 1 ∷ [])
      "room:a" new_publisher-IsListening

no_channel : lookup "room:a" new_publisher.channels ≡ none
unfolding lookup
no_channel = refl

end_add-orphan_example :
    let q = end_add (first_call new_publisher 1 true) (overtaken new_publisher "room:a" 1 2) in
    ((begin_add new_publisher "room:a" 1 true).waiting ≡ some (first_call new_publisher 1 true))
    × (lookup "room:a" q.upstream ≡ none)
    × (q.arrays 0 ≡ 1 ∷ [])
    × (lookup "room:a" q.channels ≡ none)
    × (dispatch q "room:a" ≡ [])
end_add-orphan_example = end_add-orphan new_publisher "room:a" 1 2 no_channel
