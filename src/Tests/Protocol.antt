-- ===== src/Tests/Protocol.antt =====
-- The codec's theorems on concrete frames, with an encoder that knows a few values.
use konvo_pro.Shared.{◌≡◌, refl, ◌↔◌, [], ◌∷◌, none, some, ok}
use konvo_pro.Crypto.{Bytes}
use konvo_pro.Protocol.Value.{Value}
use konvo_pro.Protocol.Messages.{CiphertextEnvelope, ClientToServer, hello, message, ServerToClient}
use konvo_pro.Protocol.Codec.{Msgpack, encode_msgpack, decode_envelope, decode_c2s, decode_s2c}
use konvo_pro.Protocol.Shapes.{IsEnvelope}
use konvo_pro.Protocol.ClientFrames.{IsC2s}
use konvo_pro.Protocol.ServerFrames.{IsS2c}
use konvo_pro.Protocol.Frames.{Frames, decode_iff}
use konvo_pro.Protocol.RoundTrip.{c2s_value, encode_c2s, decode_c2s-encode_c2s}

abbrev pub letter : CiphertextEnvelope
letter = record {
  id = none;
  session_id = "s";
  sender_device_id = "a";
  recipient_device_id = "b";
  type = message;
  ciphertext = 1 ∷ 2 ∷ [];
  created_at = none;
}

abbrev pub greeting : ClientToServer
greeting = hello "a"

-- One value, as one byte.
abbrev pub only : Value → Msgpack
only v = record { encode = λ w. 1 ∷ []; decode = λ buf. some v }

decode_iff_example :
    let mp = only (c2s_value greeting) in
    let v = c2s_value greeting in
    let buf : Bytes = 1 ∷ [] in
    ((decode_c2s mp buf ≡ ok v) ↔ (Frames mp buf v × ((m : ClientToServer) × IsC2s v m)))
    × ((decode_s2c mp buf ≡ ok v) ↔ (Frames mp buf v × ((m : ServerToClient) × IsS2c v m)))
    × ((decode_envelope mp buf ≡ ok v)
        ↔ (Frames mp buf v × ((e : CiphertextEnvelope) × IsEnvelope v e)))
decode_iff_example = decode_iff (only (c2s_value greeting)) (1 ∷ []) (c2s_value greeting)

greeting-encoded : encode_c2s (only (c2s_value greeting)) greeting ≡ ok (1 ∷ [])
unfolding encode_c2s encode_msgpack
greeting-encoded = refl

decode_c2s-encode_c2s_example :
    (decode_c2s (only (c2s_value greeting)) (1 ∷ []) ≡ ok (c2s_value greeting))
    × IsC2s (c2s_value greeting) greeting
decode_c2s-encode_c2s_example =
    decode_c2s-encode_c2s (only (c2s_value greeting)) greeting (1 ∷ []) refl greeting-encoded
