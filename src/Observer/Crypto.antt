-- ===== src/Observer/Crypto.antt =====
-- The cryptography and the encoders that package observer calls, and what it relies on.
use open_world_model.Base.{◌<◌, ◌≡◌, Bool, true, Option, All, length}
use open_world_model.Base.Text.{Text}

pub record Crypto : Type 0 where
  pub sha256 : Text → Text
  -- ed25519.Sign, PrivateKey.Public, NewKeyFromSeed and Verify
  pub sign : Text → Text → Text
  pub public_of : Text → Text
  pub key_from_seed : Text → Text
  pub verify : Text → Text → Text → Bool
  -- the Ed25519 key of a PEM block with a PKCS #8 key
  pub pem_key : Text → Option Text
  -- json.Marshal of a string
  pub json_string : Text → Text

abbrev pub IsBytes : Text → Type 0
IsBytes = All (λ c. c < 256)

-- FIPS 180-4 and RFC 8032: the sizes, and that a signature by the key of a seed verifies under its
-- public key.
pub record Laws (c : Crypto) : Type 0 where
  pub sha256_length : (s : Text) → length (c.sha256 s) ≡ 32
  pub sha256_bytes : (s : Text) → IsBytes (c.sha256 s)
  pub sign_length : (key s : Text) → length (c.sign key s) ≡ 64
  pub sign_bytes : (key s : Text) → IsBytes (c.sign key s)
  pub sign_verifies :
      (seed s : Text)
      → length seed ≡ 32
      → c.verify (c.public_of (c.key_from_seed seed)) s (c.sign (c.key_from_seed seed) s) ≡ true
  pub seed_length : (seed : Text) → length seed ≡ 32 → length (c.key_from_seed seed) ≡ 64

-- The key of a seed: its second half is the public key of its first.
abbrev pub IsKeyOfSeed : Crypto → Text → Type 0
IsKeyOfSeed c key = (seed : Text) × (length seed ≡ 32) × (key ≡ c.key_from_seed seed)
