-- ===== src/Crypto/Toy.antt =====
-- Concrete functions that meet the laws: checksums in place of hashes. Tests run on them.
use konvo_pro.Shared.{
  ℕ, ◌+◌, ◌*◌, ◌%◌, ◌≡◌, refl, ap, Option, none, some, [], ◌∷◌, arith, replicate, length-replicate,
  true, Bool, false, ◌==◌, ==_refl, if◌then◌else◌,
}
use konvo_pro.Crypto.{Bytes, Primitives, Laws, Signing, SigningLaws}

abbrev sum : Bytes → ℕ
sum [] = 0
sum (b ∷ bs) = b + sum bs

abbrev checksum : Bytes → Bytes → Bytes → ℕ
checksum key iv aad = (sum key + 3 * sum iv + 5 * sum aad) % 256

abbrev open_box : Bytes → Bytes → Bytes → Bytes → Option Bytes
open_box key iv aad [] = none
open_box key iv aad (tag ∷ body) = if tag == checksum key iv aad then some body else none

abbrev pub toy : Primitives
toy = record {
  hkdf = λ ikm salt info n. replicate n ((sum ikm + 7 * sum salt + 11 * sum info) % 256);
  hmac = λ key message. replicate 32 ((3 * sum key + sum message) % 256);
  shared_secret = λ a b. some (replicate 32 ((sum a + sum b) % 256));
  public_key = λ a. sum a ∷ replicate 31 0;
  aes_encrypt = λ key iv aad body. checksum key iv aad ∷ body;
  aes_decrypt = open_box;
}

open_box_seal :
    (key iv aad body : Bytes) → open_box key iv aad (checksum key iv aad ∷ body) ≡ some body
open_box_seal key iv aad body = rw (==_refl (checksum key iv aad))

agreement_toy :
    (a b : Bytes) → toy.shared_secret a (toy.public_key b) ≡ toy.shared_secret b (toy.public_key a)
agreement_toy a b =
    ap (λ (n : ℕ). some (replicate 32 (n % 256)))
      (let e : sum a + sum (toy.public_key b) ≡ sum b + sum (toy.public_key a) = omega arith in e)

pub toy-Laws : Laws toy
toy-Laws = record {
  decrypt-encrypt = open_box_seal;
  agreement = agreement_toy;
  length-public_key = λ a. refl;
  length-hkdf =
      λ ikm salt info n. length-replicate n ((sum ikm + 7 * sum salt + 11 * sum info) % 256);
}

abbrev is_sum : Bytes → ℕ → Bool
is_sum [] n = false
is_sum (b ∷ bs) n = b == n

abbrev pub toy_signing : Signing
toy_signing = record {
  ed_public_key = λ a. sum a ∷ [];
  sign = λ message priv. (sum message + sum priv) ∷ [];
  verify = λ signature message key. is_sum signature (sum message + sum key);
  wrap = λ raw kek. raw;
  unwrap = λ wrapped kek. some wrapped;
}

verify_toy :
    (message priv : Bytes)
    → toy_signing.verify (toy_signing.sign message priv) message (toy_signing.ed_public_key priv)
      ≡ true
verify_toy message priv = ground arith

pub toy_signing-Laws : SigningLaws toy_signing
toy_signing-Laws = record { verify-sign = verify_toy; unwrap-wrap = λ raw kek. refl }
