-- ===== src/Runtime/Account.antt =====
-- runtime/account/src/lib.rs: Ethereum signatures and signers.
use moonbeam.Base.{
  ℕ, zero, suc, ◌≡◌, refl, ap, ◌∙◌, Bool, false, Option, none, some, List, [], ◌∷◌, length, take,
  ◌==◌, arith, if◌then◌else◌, ◌++◌, sym, length-append,
}

pub data EcdsaVerifyError : Type 0 where
  bad_rs bad_v bad_signature : EcdsaVerifyError

pub data Recovered : Type 0 where
  ok : List ℕ → Recovered
  err : EcdsaVerifyError → Recovered

-- What the crate calls: the hash, and the recovery of a public key from a signature and a hash.
-- An `H160` is the number that its bytes write; `low_160` takes it from the bytes of an `H256`.
pub record Crypto : Type 0 where
  pub keccak_256 : List ℕ → List ℕ
  pub secp256k1_ecdsa_recover : List ℕ → List ℕ → Recovered
  pub low_160 : List ℕ → ℕ

abbrev pub drop {ℓ} : {A : Type ℓ} → ℕ → List A → List A
drop zero xs = xs
drop (suc n) [] = []
drop (suc n) (x ∷ xs) = drop n xs

-- `EthereumSigner([u8; 20])`
pub record EthereumSigner : Type 0 where
  pub bytes : List ℕ

-- `From<ecdsa::Public>`, where the key has 33 bytes: `x.as_ref()[13..33]`, and a range out of the
-- slice is a panic
unfoldable pub from_public : List ℕ → Option EthereumSigner
from_public x = if length x == 33 then some (record { bytes = take 20 (drop 13 x) }) else none

module _ (crypto : Crypto) where
  unfoldable pub address_of : List ℕ → ℕ
  address_of pubkey = crypto.low_160 (crypto.keccak_256 pubkey)

  unfoldable pub verify_recovered : Recovered → ℕ → Bool
  unfolding address_of
  verify_recovered (ok pubkey) signer = address_of pubkey == signer
  verify_recovered (err bad_rs) signer = false
  verify_recovered (err bad_v) signer = false
  verify_recovered (err bad_signature) signer = false

  -- `Verify for EthereumSignature`, on the bytes of the signature
  unfoldable pub verify : List ℕ → List ℕ → ℕ → Bool
  unfolding verify_recovered
  verify sig msg signer =
      verify_recovered (crypto.secp256k1_ecdsa_recover sig (crypto.keccak_256 msg)) signer

drop-append : (n : ℕ) (xs ys : List ℕ) → length xs ≡ n → drop n (xs ++ ys) ≡ ys
drop-append zero [] ys h = refl
drop-append zero (x ∷ xs) ys h = ground arith
drop-append (suc n) [] ys h = ground arith
drop-append (suc n) (x ∷ xs) ys h = drop-append n xs ys (omega arith)

take-all : (n : ℕ) (xs : List ℕ) → length xs ≡ n → take n xs ≡ xs
take-all zero [] h = refl
take-all zero (x ∷ xs) h = ground arith
take-all (suc n) [] h = ground arith
take-all (suc n) (x ∷ xs) h = ap (λ ys. x ∷ ys) (take-all n xs (omega arith))

from_public-tail :
    (head tail : List ℕ)
    → length head ≡ 13
    → length tail ≡ 20
    → from_public (head ++ tail) ≡ some (record { bytes = tail })
unfolding from_public
from_public-tail head tail h t =
    let whole : length (head ++ tail) ≡ 33 = omega (arith, length-append head tail) in
    rw (from_public, whole, drop-append 13 head tail h, take-all 20 tail t) refl

-- The signer of a public key does not depend on the key's first 13 bytes, and so not on the parity
-- byte: a key and its negation, with the same other bytes, have the same account.
pub from_public-prefix :
    (head other tail : List ℕ)
    → length head ≡ 13
    → length other ≡ 13
    → length tail ≡ 20
    → (from_public (head ++ tail) ≡ from_public (other ++ tail))
      × (from_public (head ++ tail) ≡ some (record { bytes = tail }))
from_public-prefix head other tail h o t =
    let signer = from_public-tail head tail h t in
    (signer ∙ sym (from_public-tail other tail o t), signer)
