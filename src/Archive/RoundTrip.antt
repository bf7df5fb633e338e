-- ===== src/Archive/RoundTrip.antt =====
-- A file that `encrypt_file` of backend/app/archive_crypto.py has encrypted is read back by
-- `decrypt_file`.
use lab_gpu_server_monitor.Prelude.{
  ◌≡◌, ◌≢◌, refl, true, none, some, [], ◌++◌, Text, text_eq, length, arith,
}
use lab_gpu_server_monitor.Prelude.Table.{lookup, insert, lookup-insert}
use lab_gpu_server_monitor.Archive.{
  Aead, Files, returns, magic, key_bytes, sealed, encrypt_fileobj, encrypt_file, decrypt_fileobj,
  decrypt_file,
}
use lab_gpu_server_monitor.Archive.Frame.{IsGcm}
use lab_gpu_server_monitor.Archive.Sealed.{frame, sealed-frame, decrypt_fileobj-sealed}

module _ (a : Aead) (g : IsGcm a) where
  encrypted :
      (source archive hex_key key nonce text bytes : Text) (files : Files)
      → key_bytes hex_key ≡ some key
      → lookup source files ≡ some text
      → lookup archive files ≡ none
      → sealed a key nonce text ≡ some bytes
      → encrypt_file a nonce true source archive hex_key files
        ≡ (none, insert archive bytes (insert archive [] files))
  unfolding encrypt_file encrypt_fileobj
  encrypted source archive hex_key key nonce text bytes files good there free wrote =
      ground (arith, good, there, free, wrote)

  decrypted :
      (archive restored hex_key text bytes : Text) (files : Files)
      → lookup archive files ≡ some bytes
      → lookup restored files ≡ none
      → decrypt_fileobj a (λ n. true) bytes hex_key ≡ returns text
      → decrypt_file a (λ n. true) archive restored hex_key files
        ≡ (none, insert restored text (insert restored [] files))
  unfolding decrypt_file
  decrypted archive restored hex_key text bytes files there free read = ground (
    arith,
    there,
    free,
    read,
    lookup-insert restored archive [] files,
    text_eq.beq_iff restored archive,
  )

  -- A file is encrypted under a key and decrypted under the same: both succeed, and the restored
  -- file holds what the first held, where the key is 64 hexadecimal digits, the nonce has 12 bytes,
  -- every write succeeds, AES-GCM keeps its laws, and the two files to be made are different and
  -- not there yet.
  pub decrypt_file-encrypt_file :
      (source archive restored hex_key key nonce text : Text) (files : Files)
      → key_bytes hex_key ≡ some key
      → length nonce ≡ 12
      → lookup source files ≡ some text
      → lookup archive files ≡ none
      → lookup restored files ≡ none
      → archive ≢ restored
      → let (first, stored) = encrypt_file a nonce true source archive hex_key files in
        let (second, after) = decrypt_file a (λ n. true) archive restored hex_key stored in
        (first ≡ none) × ((second ≡ none) × (lookup restored after ≡ some text))
  decrypt_file-encrypt_file source archive restored hex_key key nonce text files good n there free
        room differ =
      let (ct, tag) = g.seal key nonce (magic ++ nonce) text in
      let bytes = frame nonce ct tag in
      let wrote = sealed-frame a g key nonce text in
      let stored = insert archive bytes (insert archive [] files) in
      let step =
        encrypted source archive hex_key key nonce text bytes files good there free wrote in
      let back =
        decrypted archive restored hex_key text bytes stored
          (ground (
            arith,
            lookup-insert archive archive bytes (insert archive [] files),
            text_eq.beq_iff archive archive,
          ))
          (ground (
            arith,
            lookup-insert archive restored bytes (insert archive [] files),
            lookup-insert archive restored [] files,
            text_eq.beq_iff archive restored,
            differ,
            room,
          ))
          (decrypt_fileobj-sealed a g key nonce text hex_key bytes good n wrote) in
      let found = lookup-insert restored restored text (insert restored [] stored) in
      rw (step, back) (refl, (refl, ground (arith, found, text_eq.beq_iff restored restored)))
