-- ===== src/Arweave/Codecs.antt =====
-- What crates/arweave takes from the crates base64, sha2 and hex, and from the library for text that
-- the kernel has no account of. `none` is an error.
use em.Base.{ℕ, Option, List}
use Prim.Native.String.{String}

pub record Codecs : Type 0 where
  -- `base64::encode_config(s, URL_SAFE_NO_PAD)` of a text
  pub encode_url : String → String
  -- `base64::decode`, and `base64::decode_config(s, URL_SAFE_NO_PAD)`
  pub decode : String → Option (List ℕ)
  pub decode_url : String → Option (List ℕ)
  pub from_utf8 : List ℕ → Option String
  pub to_lowercase : String → String
  -- `hex::encode` of the SHA-256 of a message
  pub hex_sha256 : List ℕ → String
