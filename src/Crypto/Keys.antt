-- ===== src/Crypto/Keys.antt =====
-- Wrapped keys, sub-keys and small secrets in omnidrive-core/src/crypto.rs.
use omnidrive.Prelude.{ℕ, ◌+◌, ◌-◌, not, ◌++◌, ltb, length, take, drop}
use omnidrive.Result.{Result, ok, ◌>>=◌, ◌>>◌, guard, ok_or}
use omnidrive.Bytes.{Bytes}
use omnidrive.Crypto.{
  Primitives, CryptoError, key_wrap, aead, expand_labeled_key, kek_v2_info, chunk_nonce_len,
}

abbrev pub gcm_tag_len : ℕ
gcm_tag_len = 16

module _ (c : Primitives) where
  unfoldable pub wrap_key : Bytes → Bytes → Result CryptoError Bytes
  wrap_key wrapping_key plaintext_key = ok_or (c.aes_kw_wrap wrapping_key plaintext_key) key_wrap

  unfoldable pub unwrap_key : Bytes → Bytes → Result CryptoError Bytes
  unwrap_key wrapping_key wrapped_key = ok_or (c.aes_kw_unwrap wrapping_key wrapped_key) key_wrap

  unfoldable pub derive_kek : Bytes → Result CryptoError Bytes
  unfolding expand_labeled_key
  derive_kek master_key = expand_labeled_key c master_key kek_v2_info

  unfoldable pub derive_subkey : Bytes → Bytes → Result CryptoError Bytes
  unfolding expand_labeled_key
  derive_subkey master info = expand_labeled_key c master info

  -- nonce ‖ ciphertext ‖ tag; the first argument is the random nonce.
  unfoldable pub encrypt_secret : Bytes → Bytes → Bytes → Bytes → Result CryptoError Bytes
  encrypt_secret nonce key plaintext aad = do
    sealed ← ok_or (c.gcm_encrypt key nonce aad plaintext) aead
    ok (nonce ++ (sealed.0 ++ sealed.1))

  unfoldable pub decrypt_secret : Bytes → Bytes → Bytes → Result CryptoError Bytes
  decrypt_secret key blob aad = do
    guard (not (ltb (length blob) (chunk_nonce_len + gcm_tag_len))) aead
    let rest = drop chunk_nonce_len blob
    let at = length rest - gcm_tag_len
    ok_or (c.gcm_decrypt key (take chunk_nonce_len blob) aad (take at rest) (drop at rest)) aead
