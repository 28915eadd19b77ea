-- ===== src/Digest/Examples.antt =====
-- A hash function of the size of SHA-256, to run the model by: a checksum in two of the bytes.
use agent_airlock.Prelude.{
  ℕ, zero, suc, ◌+◌, ◌*◌, ◌/◌, ◌%◌, ◌<◌, List, [], ◌∷◌, ◌++◌, All, arith, refl,
}
use agent_airlock.Prelude.Texts.{Text}
use agent_airlock.Digest.{Sha256, digest_prefix}

abbrev pub replicate : ℕ → ℕ → List ℕ
replicate zero c = []
replicate (suc n) c = c ∷ replicate n c

unfoldable pub checksum : ℕ → List ℕ → ℕ
checksum acc [] = acc
checksum acc (b ∷ bytes) = checksum ((acc * 31 + b + 7) % 65536) bytes

zeros-bytes : (n : ℕ) → All (λ b. b < 256) (replicate n 0)
zeros-bytes zero = tt
zeros-bytes (suc n) = (omega arith, zeros-bytes n)

pub toy_bytes : (c : ℕ) → All (λ b. b < 256) (c / 256 % 256 ∷ c % 256 ∷ replicate 30 0)
toy_bytes c = (omega arith, (omega arith, zeros-bytes 30))

abbrev pub toy_sha : Sha256
toy_sha = record {
  hash = λ m. checksum 0 m / 256 % 256 ∷ checksum 0 m % 256 ∷ replicate 30 0;
  hash_length = λ m. refl;
  hash_bytes = λ m. toy_bytes (checksum 0 m);
}

-- A digest of one repeated character.
abbrev pub digest_of : ℕ → Text
digest_of c = digest_prefix ++ replicate 64 c
