-- ===== src/Dm/Wire.antt =====
-- apps/web/src/features/dm/wire.ts: the header and the body of a message as one frame.
use konvo_pro.Shared.{
  ℕ, zero, suc, ◌+◌, ◌*◌, ◌^◌, ◌≡◌, ◌≤◌, refl, ap, ◌∙◌, arith, Option, none, some, [], ◌∷◌, ◌++◌,
  length, take, drop, length-append, ltb, ◌==◌, if◌then◌else◌, ok, err,
}
use konvo_pro.Crypto.{Bytes}
use konvo_pro.Ratchet.State.{key_length, RatchetMessageHeader, Thrown, bad_dh_pub}
use konvo_pro.Ratchet.Keys.{uint32_be}

abbrev pub header_bytes : ℕ
header_bytes = 40

pub record WireFrame : Type 0 where
  pub header : RatchetMessageHeader
  pub body : Bytes

unfoldable pub encode_wire_ciphertext : RatchetMessageHeader → Bytes → Thrown Bytes
encode_wire_ciphertext h body =
    if length h.dh_pub == key_length
    then ok (h.dh_pub ++ (uint32_be h.prev_chain_length ++ (uint32_be h.message_number ++ body)))
    else err bad_dh_pub

-- `getUint32`, the highest byte first; past the end it throws, which the length rules out here.
unfoldable pub read_uint32 : Bytes → ℕ
read_uint32 (a ∷ b ∷ c ∷ d ∷ rest) = a * 2 ^ 24 + b * 2 ^ 16 + c * 2 ^ 8 + d
read_uint32 other = 0

unfoldable pub decode_wire_ciphertext : Bytes → Option WireFrame
decode_wire_ciphertext bytes =
    if ltb (length bytes) header_bytes
    then none
    else some (record {
      header = record {
        dh_pub = take 32 bytes;
        prev_chain_length = read_uint32 (drop 32 bytes);
        message_number = read_uint32 (drop 36 bytes);
      };
      body = drop header_bytes bytes;
    })

read_uint32-uint32_be :
    (n : ℕ) (rest : Bytes) → n ≤ 0xffffffff → read_uint32 (uint32_be n ++ rest) ≡ n
unfolding read_uint32 uint32_be
read_uint32-uint32_be n rest small = omega (arith, small)

take-append : (xs ys : Bytes) (n : ℕ) → length xs ≡ n → take n (xs ++ ys) ≡ xs
take-append [] ys zero e = refl
take-append [] ys (suc n) e = absurd (omega (arith, e))
take-append (x ∷ xs) ys zero e = absurd (omega (arith, e))
take-append (x ∷ xs) ys (suc n) e = ap (◌∷◌ x) (take-append xs ys n (omega (arith, e)))

drop-append : (xs ys : Bytes) (n k : ℕ) → length xs ≡ n → drop (n + k) (xs ++ ys) ≡ drop k ys
drop-append [] ys n k e =
    ap (λ (m : ℕ). drop m ys) (let same : n + k ≡ k = omega (arith, e) in same)
drop-append (x ∷ xs) ys zero k e = absurd (omega (arith, e))
drop-append (x ∷ xs) ys (suc n) k e =
    ap (λ (m : ℕ). drop m (x ∷ (xs ++ ys)))
      (let same : suc n + k ≡ suc (n + k) = omega arith in same)
    ∙ drop-append xs ys n k (omega (arith, e))

length-uint32_be : (n : ℕ) → length (uint32_be n) ≡ 4
unfolding uint32_be
length-uint32_be n = refl

module _ (h : RatchetMessageHeader) (body : Bytes) (long : length h.dh_pub ≡ 32) where
  abbrev prev_bytes : Bytes
  prev_bytes = uint32_be h.prev_chain_length

  abbrev number_bytes : Bytes
  number_bytes = uint32_be h.message_number

  abbrev pub frame_of : Bytes
  frame_of = h.dh_pub ++ (prev_bytes ++ (number_bytes ++ body))

  drops_key : drop 32 frame_of ≡ prev_bytes ++ (number_bytes ++ body)
  drops_key = drop-append h.dh_pub (prev_bytes ++ (number_bytes ++ body)) 32 0 long

  drops_prev : drop 36 frame_of ≡ number_bytes ++ body
  drops_prev =
      drop-append h.dh_pub (prev_bytes ++ (number_bytes ++ body)) 32 4 long
      ∙ drop-append prev_bytes (number_bytes ++ body) 4 0 (length-uint32_be h.prev_chain_length)

  drops_number : drop 40 frame_of ≡ body
  drops_number =
      drop-append h.dh_pub (prev_bytes ++ (number_bytes ++ body)) 32 8 long
      ∙ drop-append prev_bytes (number_bytes ++ body) 4 4 (length-uint32_be h.prev_chain_length)
      ∙ drop-append number_bytes body 4 0 (length-uint32_be h.message_number)

  frame-length : 40 ≤ length frame_of
  frame-length = omega (
    arith,
    long,
    length-append h.dh_pub (prev_bytes ++ (number_bytes ++ body)),
    length-append prev_bytes (number_bytes ++ body),
    length-append number_bytes body,
    length-uint32_be h.prev_chain_length,
    length-uint32_be h.message_number,
  )

  -- A header whose key has 32 bytes and whose counters fit four bytes comes back from its frame, with
  -- the body, whatever the body is.
  pub decode_wire-encode_wire :
      h.prev_chain_length ≤ 0xffffffff
      → h.message_number ≤ 0xffffffff
      → (bytes : Bytes) × (encode_wire_ciphertext h body ≡ ok bytes)
        × (decode_wire_ciphertext bytes ≡ some (record { header = h; body = body }))
  unfolding encode_wire_ciphertext decode_wire_ciphertext
  decode_wire-encode_wire prev_fits number_fits =
      let prev : read_uint32 (drop 32 frame_of) ≡ h.prev_chain_length =
        ap read_uint32 drops_key
        ∙ read_uint32-uint32_be h.prev_chain_length (number_bytes ++ body) prev_fits in
      let number : read_uint32 (drop 36 frame_of) ≡ h.message_number =
        ap read_uint32 drops_prev ∙ read_uint32-uint32_be h.message_number body number_fits in
      let key = take-append h.dh_pub (prev_bytes ++ (number_bytes ++ body)) 32 long in
      (
        frame_of,
        ground (arith, long),
        ground (arith, frame-length, key, prev, number, drops_number),
      )
