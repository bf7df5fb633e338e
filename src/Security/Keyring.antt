-- ===== src/Security/Keyring.antt =====
-- Stored credentials: the ordered keyring of `encrypt_text` and `decrypt_text`.
use lab_gpu_server_monitor.Prelude.{
  ◌≡◌, true, none, some, List, [], ◌∷◌, ◌++◌, Text, arith, All, non_empty,
}
use lab_gpu_server_monitor.Security.{Crypto, encrypt_text, decrypt_with, decrypt_text}

-- A ciphertext under one key, behind newer keys that all reject it.
decrypt_with-behind :
    (c : Crypto) (newer older : List Text) (key token plain : Text)
    → c.fernet_decrypt key token ≡ some plain
    → All (λ k. c.fernet_decrypt k token ≡ none) newer
    → decrypt_with c (newer ++ key ∷ older) token ≡ some plain
unfolding decrypt_with
decrypt_with-behind c [] older key token plain opens rejected = ground arith
decrypt_with-behind c (k ∷ newer) older key token plain opens rejected =
    ground (arith, decrypt_with-behind c newer older key token plain opens rejected.1)

-- A credential that was stored under a keyring's first key is read back, also after newer keys
-- have been put in front of that key, as long as Fernet opens what it has sealed under the key and
-- no newer key opens it.
pub decrypt_text-encrypt_text :
    (c : Crypto) (newer older : List Text) (key plain token : Text)
    → encrypt_text c (key ∷ older) plain ≡ some token
    → c.fernet_decrypt key (c.fernet_encrypt key plain) ≡ some plain
    → non_empty (c.fernet_encrypt key plain) ≡ true
    → All (λ k. c.fernet_decrypt k (c.fernet_encrypt key plain) ≡ none) newer
    → decrypt_text c (newer ++ key ∷ older) token ≡ some plain
unfolding encrypt_text decrypt_text
decrypt_text-encrypt_text c newer older key [] token e opens sealed rejected = ground arith
decrypt_text-encrypt_text c newer older key (p ∷ plain) token e opens sealed rejected = ground (
  arith,
  decrypt_with-behind c newer older key (c.fernet_encrypt key (p ∷ plain)) (p ∷ plain) opens
      rejected,
)
