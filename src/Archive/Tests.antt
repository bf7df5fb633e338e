-- ===== src/Archive/Tests.antt =====
-- Archives on concrete inputs, with a cipher that changes nothing and a tag of zeros; and the
-- theorems at inputs that meet their hypotheses.
use lab_gpu_server_monitor.Prelude.{
  ◌≡◌, not, nat_beq, refl, sym, ap, ◌∙◌, true, Option, none, some, List, [], ◌∷◌, ◌++◌,
  if◌then◌else◌, Text, codes, text_eq, text_beq, ◌==◌, beq_refl, arith,
}
use mathlib.Core.List.{append_assoc, append-nil}
use lab_gpu_server_monitor.Prelude.Table.{lookup}
use lab_gpu_server_monitor.Archive.{
  Aead, Files, raises, file_exists, io_error, invalid_tag, too_short, from_hex, key_bytes,
  encrypt_loop, decrypt_loop, sealed, encrypt_fileobj, encrypt_file, decrypt_fileobj, decrypt_file,
}
use lab_gpu_server_monitor.Archive.Frame.{IsGcm, feed, finished, join}
use lab_gpu_server_monitor.Archive.Files.{IsSafe, decrypt_file-IsSafe}
use lab_gpu_server_monitor.Archive.RoundTrip.{decrypt_file-encrypt_file}

program : Unit {0}
unfolding from_hex key_bytes encrypt_loop decrypt_loop sealed encrypt_fileobj encrypt_file
    decrypt_fileobj decrypt_file text_beq
program = tt

abbrev zeros : Text
zeros = 0 ∷ 0 ∷ 0 ∷ 0 ∷ 0 ∷ 0 ∷ 0 ∷ 0 ∷ 0 ∷ 0 ∷ 0 ∷ 0 ∷ 0 ∷ 0 ∷ 0 ∷ 0 ∷ []

-- the context is the tag that a decryptor expects
abbrev plain : Aead
plain = record {
  Context = Option Text;
  encryptor = λ key nonce aad. none;
  decryptor = λ key nonce tag aad. some tag;
  update = λ c chunk. (c, chunk);
  finalize = λ c. elim c [ none ↦ some [] | some t ↦ if t == zeros then some [] else none ];
  tag = λ c. zeros;
}

fed :
    (parts : List Text) (c : Option Text) (out : Text)
    → feed plain parts (c, out) ≡ (c, out ++ join parts)
fed [] c out = ap (λ o. (c, o)) (sym (append-nil out))
fed (p ∷ ps) c out = fed ps c (out ++ p) ∙ ap (λ o. (c, o)) (append_assoc out p (join ps))

ended : (t out : Text) → finished plain (some t, out) ≡ (if t == zeros then some out else none)
ended t out = ground (arith, append-nil out)

abbrev plain_gcm : IsGcm plain
plain_gcm = record {
  seal = λ key nonce aad text. (text, zeros);
  unseal = λ key nonce tag aad text. if tag == zeros then some text else none;
  unseal-seal = λ key nonce aad text. ap (λ b. if b then some text else none) (beq_refl zeros);
  length-tag = λ key nonce aad text. refl;
  encrypts = λ key nonce aad parts.
      (ap (finished plain) (fed parts none []) ∙ ap some (append-nil (join parts)), refl);
  decrypts = λ key nonce tag aad parts.
      ap (finished plain) (fed parts (some tag) []) ∙ ended tag (join parts);
}

abbrev hex_key : Text
hex_key = codes "000102030405060708090a0b0c0d0e0f101112131415161718191A1B1C1D1E1F"

abbrev key : Text
key =
    0 ∷ 1 ∷ 2 ∷ 3 ∷ 4 ∷ 5 ∷ 6 ∷ 7 ∷ 8 ∷ 9 ∷ 10 ∷ 11 ∷ 12 ∷ 13 ∷ 14 ∷ 15 ∷ 16 ∷ 17 ∷ 18 ∷ 19 ∷ 20
    ∷ 21 ∷ 22 ∷ 23 ∷ 24 ∷ 25 ∷ 26 ∷ 27 ∷ 28 ∷ 29 ∷ 30 ∷ 31 ∷ []

key_read : key_bytes hex_key ≡ some key
unfolding program
key_read = refl

odd_key : key_bytes (codes "0g") ≡ none
unfolding program
odd_key = refl

abbrev nonce : Text
nonce = codes "abcdefghijkl"

abbrev disk : Files
disk = (codes "m", codes "rows") ∷ []

abbrev stored : Files
stored = (encrypt_file plain nonce true (codes "m") (codes "a") hex_key disk).1

archive_bytes : lookup (codes "a") stored ≡ some (codes "GPMONAR1abcdefghijklrows" ++ zeros)
unfolding program
archive_bytes = refl

no_overwrite :
    encrypt_file plain nonce true (codes "m") (codes "m") hex_key disk ≡ (some file_exists, disk)
unfolding program
no_overwrite = refl

forged :
    decrypt_file plain
      (λ n. true)
      (codes "a")
      (codes "b")
      hex_key
      ((codes "a", codes "GPMONAR1abcdefghijklrows................") ∷ [])
    ≡ (some invalid_tag, (codes "a", codes "GPMONAR1abcdefghijklrows................") ∷ [])
unfolding program
forged = refl

-- the third call, the flush, fails
full_disk :
    decrypt_file plain (λ n. not (nat_beq n 2)) (codes "a") (codes "b") hex_key stored
    ≡ (some io_error, stored)
unfolding program
full_disk = refl

short_file : decrypt_fileobj plain (λ n. true) (codes "GPMONAR1") hex_key ≡ raises too_short
unfolding program
short_file = refl

decrypt_file-encrypt_file_example :
    let (first, disk') = encrypt_file plain nonce true (codes "m") (codes "a") hex_key disk in
    let (second, after) = decrypt_file plain (λ n. true) (codes "a") (codes "b") hex_key disk' in
    (first ≡ none) × ((second ≡ none) × (lookup (codes "b") after ≡ some (codes "rows")))
unfolding program
decrypt_file-encrypt_file_example =
    decrypt_file-encrypt_file plain plain_gcm (codes "m") (codes "a") (codes "b") hex_key key nonce
      (codes "rows") disk refl refl refl refl refl (λ e. ground (arith, e))

decrypt_file-IsSafe_example :
    IsSafe plain plain_gcm
      (λ n. not (nat_beq n 2))
      (codes "a")
      (codes "b")
      hex_key
      stored
      (decrypt_file plain (λ n. not (nat_beq n 2)) (codes "a") (codes "b") hex_key stored)
unfolding program
decrypt_file-IsSafe_example =
    decrypt_file-IsSafe plain plain_gcm (λ n. not (nat_beq n 2)) (codes "a") (codes "b") hex_key
      stored (refl, (refl, tt))
