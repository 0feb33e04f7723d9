-- ===== src/Crypto.antt =====
-- Chunk encryption of omnidrive-core/src/crypto.rs. HMAC-SHA256, HKDF, AES-256-GCM, AES-KW and
-- Argon2id, which are other crates, are the fields of `Primitives`; the random generator's bytes
-- are an argument.
use omnidrive.Prelude.{
  ℕ, ◌≡◌, refl, ◌∙◌, sym, subst, ap, Bool, true, false, not, Option, none, some, List, [], ◌∷◌,
  ◌++◌, inl, inr, Option-cases, Bool-cases, length, take, arith,
}
use omnidrive.Result.{Result, ok, err, ◌>>=◌, ◌>>◌, guard, ok_or, Result-cases}
use omnidrive.Bytes.{Bytes, bytes_eq, bytes_eq_refl, bytes_eq-eq}
pub mod Keys
pub mod Roundtrip

pub data CryptoError : Type 0 where
  argon2 : CryptoError
  hkdf_expand : CryptoError
  invalid_key_length : CryptoError
  aead : CryptoError
  key_wrap : CryptoError
  chunk_id_mismatch : Bytes → Bytes → CryptoError

pub record RootKdfParams : Type 0 where
  pub parameter_set_version : ℕ
  pub salt : Bytes
  pub memory_cost_kib : ℕ
  pub time_cost : ℕ
  pub lanes : ℕ

-- Calls of other crates. `hmac` and `hkdf` fail on a key of a wrong length only.
pub record Primitives : Type 0 where
  pub hmac : Bytes → Bytes → Option Bytes
  pub hkdf : Bytes → Bytes → Option Bytes
  pub argon2id : RootKdfParams → Bytes → Option Bytes
  pub gcm_encrypt : Bytes → Bytes → Bytes → Bytes → Option (Bytes × Bytes)
  pub gcm_decrypt : Bytes → Bytes → Bytes → Bytes → Bytes → Option Bytes
  pub aes_kw_wrap : Bytes → Bytes → Option Bytes
  pub aes_kw_unwrap : Bytes → Bytes → Option Bytes

pub record EncryptedChunk : Type 0 where
  pub chunk_id : Bytes
  pub nonce : Bytes
  pub ciphertext : Bytes
  pub gcm_tag : Bytes

pub record RootKeys : Type 0 where
  pub master_key : Bytes
  pub vault_key : Bytes
  pub kek : Bytes
  pub manifest_mac_key : Bytes
  pub lease_mac_key : Bytes
  pub local_anchor_key : Bytes

-- The labels, as their ASCII bytes.
abbrev pub chunk_enc_info : Bytes
chunk_enc_info =
    b'c' ∷ b'h' ∷ b'u' ∷ b'n' ∷ b'k' ∷ b'-' ∷ b'e' ∷ b'n' ∷ b'c' ∷ b'-' ∷ b'v' ∷ b'1' ∷ []

abbrev pub chunk_nonce_prefix : Bytes
chunk_nonce_prefix = b'n' ∷ b'o' ∷ b'n' ∷ b'c' ∷ b'e' ∷ []

abbrev pub chunk_nonce_len : ℕ
chunk_nonce_len = 12

abbrev pub vault_key_info : Bytes
vault_key_info =
    b'v' ∷ b'a' ∷ b'u' ∷ b'l' ∷ b't' ∷ b'-' ∷ b'k' ∷ b'e' ∷ b'y' ∷ b'-' ∷ b'v' ∷ b'1' ∷ []

abbrev pub kek_v2_info : Bytes
kek_v2_info = b'k' ∷ b'e' ∷ b'k' ∷ b'-' ∷ b'v' ∷ b'2' ∷ []

-- b"manifest", b"lease" and b"local-anchor" before the two suffixes
abbrev pub mac_key_v1 : Bytes
mac_key_v1 = b'-' ∷ b'm' ∷ b'a' ∷ b'c' ∷ b'-' ∷ b'k' ∷ b'e' ∷ b'y' ∷ b'-' ∷ b'v' ∷ b'1' ∷ []

abbrev pub manifest_mac_key_info : Bytes
manifest_mac_key_info = (b'm' ∷ b'a' ∷ b'n' ∷ b'i' ∷ b'f' ∷ b'e' ∷ b's' ∷ b't' ∷ []) ++ mac_key_v1

abbrev pub lease_mac_key_info : Bytes
lease_mac_key_info = (b'l' ∷ b'e' ∷ b'a' ∷ b's' ∷ b'e' ∷ []) ++ mac_key_v1

abbrev pub local_anchor_key_info : Bytes
local_anchor_key_info =
    (b'l' ∷ b'o' ∷ b'c' ∷ b'a' ∷ b'l' ∷ b'-' ∷ b'a' ∷ b'n' ∷ b'c' ∷ b'h' ∷ b'o' ∷ b'r' ∷ [])
    ++ (b'-' ∷ b'k' ∷ b'e' ∷ b'y' ∷ b'-' ∷ b'v' ∷ b'1' ∷ [])

module _ (c : Primitives) where
  unfoldable pub expand_labeled_key : Bytes → Bytes → Result CryptoError Bytes
  expand_labeled_key material info = ok_or (c.hkdf material info) hkdf_expand

  unfoldable pub derive_root_keys : Bytes → RootKdfParams → Result CryptoError RootKeys
  derive_root_keys passphrase params = do
    master ← ok_or (c.argon2id params passphrase) argon2
    vault_key ← expand_labeled_key master vault_key_info
    kek ← expand_labeled_key master kek_v2_info
    manifest_mac_key ← expand_labeled_key master manifest_mac_key_info
    lease_mac_key ← expand_labeled_key master lease_mac_key_info
    local_anchor_key ← expand_labeled_key master local_anchor_key_info
    ok (record {
      master_key = master;
      vault_key = vault_key;
      kek = kek;
      manifest_mac_key = manifest_mac_key;
      lease_mac_key = lease_mac_key;
      local_anchor_key = local_anchor_key;
    })

  unfoldable pub chunk_id : Bytes → Bytes → Result CryptoError Bytes
  chunk_id vault_key plaintext = ok_or (c.hmac vault_key plaintext) invalid_key_length

  unfoldable pub chunk_encryption_key : Bytes → Result CryptoError Bytes
  unfolding expand_labeled_key
  chunk_encryption_key vault_key = expand_labeled_key vault_key chunk_enc_info

  unfoldable pub chunk_nonce : Bytes → Bytes → Result CryptoError Bytes
  chunk_nonce vault_key id = do
    digest ← ok_or (c.hmac vault_key (chunk_nonce_prefix ++ id)) invalid_key_length
    ok (take chunk_nonce_len digest)

  unfoldable pub encrypt_chunk : Bytes → Bytes → Bytes → Result CryptoError EncryptedChunk
  encrypt_chunk vault_key plaintext aad = do
    id ← chunk_id vault_key plaintext
    nonce ← chunk_nonce vault_key id
    key ← chunk_encryption_key vault_key
    sealed ← ok_or (c.gcm_encrypt key nonce aad plaintext) aead
    ok (record { chunk_id = id; nonce = nonce; ciphertext = sealed.0; gcm_tag = sealed.1 })

  unfoldable pub decrypt_chunk : Bytes → Bytes → Bytes → Bytes → Bytes → Result CryptoError Bytes
  decrypt_chunk vault_key expected aad ciphertext gcm_tag = do
    nonce ← chunk_nonce vault_key expected
    key ← chunk_encryption_key vault_key
    plaintext ← ok_or (c.gcm_decrypt key nonce aad ciphertext gcm_tag) aead
    actual ← chunk_id vault_key plaintext
    guard (bytes_eq actual expected) (chunk_id_mismatch expected actual)
    ok plaintext

  -- The first argument is the random nonce.
  unfoldable pub encrypt_chunk_v2 :
      Bytes → Bytes → Bytes → Bytes → Result CryptoError EncryptedChunk
  encrypt_chunk_v2 nonce dek plaintext aad = do
    id ← chunk_id dek plaintext
    sealed ← ok_or (c.gcm_encrypt dek nonce aad plaintext) aead
    ok (record { chunk_id = id; nonce = nonce; ciphertext = sealed.0; gcm_tag = sealed.1 })

  unfoldable pub decrypt_chunk_v2 : Bytes → Bytes → Bytes → Bytes → Bytes → Result CryptoError Bytes
  decrypt_chunk_v2 dek nonce aad ciphertext gcm_tag =
      ok_or (c.gcm_decrypt dek nonce aad ciphertext gcm_tag) aead

  unfoldable pub decrypt_chunk_v2_verified :
      Bytes → Bytes → Bytes → Bytes → Bytes → Bytes → Result CryptoError Bytes
  decrypt_chunk_v2_verified dek expected nonce aad ciphertext gcm_tag = do
    plaintext ← decrypt_chunk_v2 dek nonce aad ciphertext gcm_tag
    actual ← chunk_id dek plaintext
    guard (bytes_eq actual expected) (chunk_id_mismatch expected actual)
    ok plaintext
