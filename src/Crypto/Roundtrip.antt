-- ===== src/Crypto/Roundtrip.antt =====
-- What the encryption of omnidrive-core/src/crypto.rs seals, the decryption opens, and only under
-- the id of the chunk.
use omnidrive.Prelude.{
  ◌-◌, ◌≡◌, ◌∙◌, subst, ap, false, some, ◌++◌, ltb, length, take, drop, length-append, take-append,
  drop-append, arith,
}
use omnidrive.Result.{ok, ◌>>=◌, ok_or, guard, >>=-ok, ok_or-ok, guard-ok, ok-inj}
use omnidrive.Bytes.{Bytes, bytes_eq, bytes_eq_refl, bytes_eq-eq}
use omnidrive.Crypto.{
  Primitives, EncryptedChunk, chunk_id, chunk_nonce, chunk_encryption_key, encrypt_chunk,
  decrypt_chunk, encrypt_chunk_v2, decrypt_chunk_v2, decrypt_chunk_v2_verified, aead,
  chunk_id_mismatch,
}
use omnidrive.Crypto.Keys.{encrypt_secret, decrypt_secret}

-- AES-256-GCM: decryption undoes encryption under the same key, nonce and associated data, and the
-- tag has sixteen bytes.
pub record IsAead (c : Primitives) : Type 0 where
  pub opens :
      (key nonce aad plaintext ciphertext tag : Bytes)
      → c.gcm_encrypt key nonce aad plaintext ≡ some (ciphertext, tag)
      → c.gcm_decrypt key nonce aad ciphertext tag ≡ some plaintext
  pub tag_length :
      (key nonce aad plaintext ciphertext tag : Bytes)
      → c.gcm_encrypt key nonce aad plaintext ≡ some (ciphertext, tag)
      → length tag ≡ 16

module _ (c : Primitives) where
  decrypt_chunk_opens :
      (vault_key aad : Bytes) {id nonce key plaintext ciphertext tag : Bytes}
      → chunk_id c vault_key plaintext ≡ ok id
      → chunk_nonce c vault_key id ≡ ok nonce
      → chunk_encryption_key c vault_key ≡ ok key
      → c.gcm_decrypt key nonce aad ciphertext tag ≡ some plaintext
      → decrypt_chunk c vault_key id aad ciphertext tag ≡ ok plaintext
  unfolding decrypt_chunk
  decrypt_chunk_opens vault_key aad {id = id} hid hnonce hkey o =
      rw (hnonce, hkey, o, hid, bytes_eq_refl id)

  decrypt_v2_opens :
      (dek aad : Bytes) {id nonce plaintext ciphertext tag : Bytes}
      → chunk_id c dek plaintext ≡ ok id
      → c.gcm_decrypt dek nonce aad ciphertext tag ≡ some plaintext
      → decrypt_chunk_v2_verified c dek id nonce aad ciphertext tag ≡ ok plaintext
  unfolding decrypt_chunk_v2_verified decrypt_chunk_v2
  decrypt_v2_opens dek aad {id = id} hid o = rw (o, hid, bytes_eq_refl id)

  -- A chunk that the deterministic scheme encrypts decrypts, under the same vault key, its own id and
  -- the same associated data, to the plaintext. AES-GCM decryption undoes encryption.
  pub decrypt-encrypt_chunk :
      (vault_key plaintext aad : Bytes) {e : EncryptedChunk}
      → IsAead c
      → encrypt_chunk c vault_key plaintext aad ≡ ok e
      → decrypt_chunk c vault_key e.chunk_id aad e.ciphertext e.gcm_tag ≡ ok plaintext
  unfolding encrypt_chunk
  decrypt-encrypt_chunk vault_key plaintext aad laws h =
      let (id, hid, h₁) = >>=-ok (chunk_id c vault_key plaintext) _ h in
      let (nonce, hnonce, h₂) = >>=-ok (chunk_nonce c vault_key id) _ h₁ in
      let (key, hkey, h₃) = >>=-ok (chunk_encryption_key c vault_key) _ h₂ in
      let (sealed, hs, h₄) = >>=-ok (ok_or (c.gcm_encrypt key nonce aad plaintext) aead) _ h₃ in
      subst
        (λ (x : EncryptedChunk).
          decrypt_chunk c vault_key x.chunk_id aad x.ciphertext x.gcm_tag ≡ ok plaintext)
        (ok-inj h₄)
        (decrypt_chunk_opens vault_key aad hid hnonce hkey
          (laws.opens key nonce aad plaintext sealed.0 sealed.1 (ok_or-ok _ aead hs)))

  -- A chunk that the per-file scheme encrypts decrypts, under the same key, its own id and nonce and
  -- the same associated data, to the plaintext. AES-GCM decryption undoes encryption.
  pub decrypt-encrypt_chunk_v2 :
      (nonce dek plaintext aad : Bytes) {e : EncryptedChunk}
      → IsAead c
      → encrypt_chunk_v2 c nonce dek plaintext aad ≡ ok e
      → decrypt_chunk_v2_verified c dek e.chunk_id e.nonce aad e.ciphertext e.gcm_tag ≡ ok plaintext
  unfolding encrypt_chunk_v2
  decrypt-encrypt_chunk_v2 nonce dek plaintext aad laws h =
      let (id, hid, h₁) = >>=-ok (chunk_id c dek plaintext) _ h in
      let (sealed, hs, h₂) = >>=-ok (ok_or (c.gcm_encrypt dek nonce aad plaintext) aead) _ h₁ in
      subst
        (λ (x : EncryptedChunk).
          decrypt_chunk_v2_verified c dek x.chunk_id x.nonce aad x.ciphertext x.gcm_tag
          ≡ ok plaintext)
        (ok-inj h₂)
        (decrypt_v2_opens dek aad hid
          (laws.opens dek nonce aad plaintext sealed.0 sealed.1 (ok_or-ok _ aead hs)))

  -- Both decryptions hand out a plaintext only if its keyed hash is the id that was asked for.
  pub decrypted-HasId :
      (key expected nonce aad ciphertext tag plaintext : Bytes)
      → (decrypt_chunk c key expected aad ciphertext tag ≡ ok plaintext
          → chunk_id c key plaintext ≡ ok expected)
        × (decrypt_chunk_v2_verified c key expected nonce aad ciphertext tag ≡ ok plaintext
            → chunk_id c key plaintext ≡ ok expected)
  unfolding decrypt_chunk decrypt_chunk_v2_verified
  decrypted-HasId key expected nonce aad ciphertext tag plaintext = (
    (λ h.
        let (n, _, h₁) = >>=-ok (chunk_nonce c key expected) _ h in
        let (k, _, h₂) = >>=-ok (chunk_encryption_key c key) _ h₁ in
        let (p, _, h₃) = >>=-ok (ok_or (c.gcm_decrypt k n aad ciphertext tag) aead) _ h₂ in
        checked p h₃),
    (λ h.
        let (p, _, h₁) = >>=-ok (decrypt_chunk_v2 c key nonce aad ciphertext tag) _ h in
        checked p h₁),
  )
    where
      checked :
          (p : Bytes)
          → (chunk_id c key p >>= λ actual.
              guard (bytes_eq actual expected) (chunk_id_mismatch expected actual) >>= λ _. ok p)
            ≡ ok plaintext
          → chunk_id c key plaintext ≡ ok expected
      checked p h =
          let (actual, e, h₁) = >>=-ok (chunk_id c key p) _ h in
          let (u, g, h₂) =
            >>=-ok (guard (bytes_eq actual expected) (chunk_id_mismatch expected actual)) _ h₁ in
          subst (λ x. chunk_id c key x ≡ ok expected) (ok-inj h₂)
            (e ∙ ap ok (bytes_eq-eq actual expected (guard-ok _ _ g)))

  -- A secret decrypts, under the same key and associated data, to what was encrypted. AES-GCM
  -- decryption undoes encryption, its tag has sixteen bytes, and the nonce twelve.
  pub decrypt-encrypt_secret :
      (nonce key plaintext aad : Bytes) {blob : Bytes}
      → IsAead c
      → length nonce ≡ 12
      → encrypt_secret c nonce key plaintext aad ≡ ok blob
      → decrypt_secret c key blob aad ≡ ok plaintext
  unfolding encrypt_secret decrypt_secret
  decrypt-encrypt_secret nonce key plaintext aad laws n h =
      let (sealed, hs, h₁) = >>=-ok (ok_or (c.gcm_encrypt key nonce aad plaintext) aead) _ h in
      let e = ok_or-ok _ aead hs in
      subst (λ b. decrypt_secret c key b aad ≡ ok plaintext) (ok-inj h₁)
        (secret_opens sealed.0 sealed.1
          (laws.tag_length key nonce aad plaintext sealed.0 sealed.1 e)
          (laws.opens key nonce aad plaintext sealed.0 sealed.1 e))
    where
      secret_opens :
          (ct tag : Bytes)
          → length tag ≡ 16
          → c.gcm_decrypt key nonce aad ct tag ≡ some plaintext
          → decrypt_secret c key (nonce ++ (ct ++ tag)) aad ≡ ok plaintext
      secret_opens ct tag t o =
          let long : ltb (length (nonce ++ (ct ++ tag))) 28 ≡ false =
            ground (arith, length-append nonce (ct ++ tag), length-append ct tag) in
          let front : take 12 (nonce ++ (ct ++ tag)) ≡ nonce =
            subst (λ k. take k (nonce ++ (ct ++ tag)) ≡ nonce) n (take-append nonce (ct ++ tag)) in
          let back : drop 12 (nonce ++ (ct ++ tag)) ≡ ct ++ tag =
            subst (λ k. drop k (nonce ++ (ct ++ tag)) ≡ ct ++ tag) n
              (drop-append nonce (ct ++ tag)) in
          let at : length (ct ++ tag) - 16 ≡ length ct = omega (arith, length-append ct tag) in
          rw (long, front, back, at, take-append ct tag, drop-append ct tag, o)
