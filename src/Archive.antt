-- ===== src/Archive.antt =====
-- The encrypted archives of backend/app/archive_crypto.py: the key, the format of the file, and the
-- loops over its chunks. A file is a list of bytes, the file system a dictionary of them; AES-GCM is
-- the record `Aead`.
pub mod Frame
pub mod Sealed
pub mod Files
pub mod RoundTrip
mod Tests
use lab_gpu_server_monitor.Prelude.{
  ℕ, zero, suc, ◌+◌, ◌-◌, ◌*◌, min, Bool, true, false, not, ◌&&◌, ◌||◌, Option, none, some, List,
  [], ◌∷◌, ◌++◌, if◌then◌else◌, Text, codes, text_eq, nat_beq, ltb, leb, ◌==◌, all, take, length,
}
use lab_gpu_server_monitor.Prelude.Table.{lookup, contains, insert, erase}

abbrev pub drop : ℕ → List ℕ → List ℕ
drop zero xs = xs
drop (suc n) [] = []
drop (suc n) (x ∷ xs) = drop n xs

abbrev pub magic : Text
magic = codes "GPMONAR1"

abbrev pub nonce_size : ℕ
nonce_size = 12

abbrev pub tag_size : ℕ
tag_size = 16

abbrev pub chunk_size : ℕ
chunk_size = 1024 * 1024

-- what the functions raise
pub data ArchiveError : Type 0 where
  bad_key : ArchiveError
  not_found : ArchiveError
  file_exists : ArchiveError
  io_error : ArchiveError
  too_short : ArchiveError
  not_an_archive : ArchiveError
  truncated : ArchiveError
  invalid_tag : ArchiveError

pub data Result : Type 0 where
  returns : Text → Result
  raises : ArchiveError → Result

abbrev pub Files : Type 0
Files = List (Text × Text)

-- the value of a hexadecimal digit, for the characters of `string.hexdigits`
abbrev pub hex_digit : ℕ → Option ℕ
hex_digit c =
    if leb 48 c && leb c 57
    then some (c - 48)
    else if leb 97 c && leb c 102
    then some (c - 87)
    else if leb 65 c && leb c 70
    then some (c - 55)
    else none

-- `bytes.fromhex`, of digits without spaces
unfoldable pub from_hex : Text → Option Text
from_hex [] = some []
from_hex (c ∷ []) = none
from_hex (c ∷ d ∷ text) =
    let rest = from_hex text in
    elim (hex_digit c) [
      | none ↦ none
      | some high ↦ elim (hex_digit d) [
        | none ↦ none
        | some low ↦ elim rest [ none ↦ none | some bytes ↦ some ((high * 16 + low) ∷ bytes) ]
      ]
    ]

-- `_key_bytes`; `none` where it raises
unfoldable pub key_bytes : Text → Option Text
key_bytes hex_key = if not (nat_beq (length hex_key) 64) then none else elim (from_hex hex_key) [
  | none ↦ none
  | some key ↦ if nat_beq (length key) 32 then some key else none
]

-- `Cipher(algorithms.AES(key), modes.GCM(nonce, tag))` of the package cryptography: contexts, and
-- what each call on one gives. `finalize` of a decryptor may raise InvalidTag.
pub record Aead : Type 1 where
  pub Context : Type 0
  -- the key, the nonce and the additional data
  pub encryptor : Text → Text → Text → Context
  -- the key, the nonce, the tag and the additional data
  pub decryptor : Text → Text → Text → Text → Context
  pub update : Context → Text → Context × Text
  pub finalize : Context → Option Text
  pub tag : Context → Text

-- what the loop of a decryption has come to: a context with what has been written, in how many
-- writes, or an error
pub data Progress (a : Aead) : Type 0 where
  written : a.Context → Text → ℕ → Progress a
  stopped : ArchiveError → Progress a

module _ (a : Aead) where
  -- a context, and what has been written
  abbrev pub Stream : Type 0
  Stream = a.Context × Text

  abbrev pub feed_one : Text → Stream → Stream
  feed_one chunk (c, out) = let (c', bytes) = a.update c chunk in (c', out ++ bytes)

  -- `while chunk := source.read(size)`, on fuel
  unfoldable pub encrypt_loop : ℕ → ℕ → Text → Stream → Stream
  encrypt_loop size zero source s = s
  encrypt_loop size (suc fuel) source s =
      let chunk = take size source in
      let rest = encrypt_loop size fuel (drop size source) (feed_one chunk s) in
      if nat_beq (length chunk) 0 then s else rest

  -- `while remaining`, reading at most a size at a time, on fuel. `writes` says of every write, flush
  -- and fsync in turn whether it succeeds; `n` have been made.
  unfoldable pub decrypt_loop : (ℕ → Bool) → ℕ → ℕ → ℕ → Text → ℕ → Stream → Progress a
  decrypt_loop writes size zero remaining source n s = stopped truncated
  decrypt_loop writes size (suc fuel) remaining source n s =
      let k = min size remaining in
      let chunk = take k source in
      let rest =
        decrypt_loop writes size fuel (remaining - length chunk) (drop k source) (suc n)
          (feed_one chunk s) in
      if nat_beq remaining 0
      then written s.0 s.1 n
      else if nat_beq (length chunk) 0
      then stopped truncated
      else if writes n
      then rest
      else stopped io_error

  -- the bytes of an archive under a nonce, or `none` where `finalize` raises
  unfoldable pub sealed : Text → Text → Text → Option Text
  sealed key nonce source =
      let (c, out) =
        encrypt_loop chunk_size (suc (length source)) source
          (a.encryptor key nonce (magic ++ nonce), []) in
      elim (a.finalize c) [
        | none ↦ none
        | some last ↦ some (magic ++ (nonce ++ (out ++ (last ++ a.tag c))))
      ]

  -- `encrypt_fileobj`: the nonce is what `os.urandom` gives, and `writes` says whether every write
  -- succeeds
  unfoldable pub encrypt_fileobj :
      Text → Bool → Text → Text → Text → Files → Option ArchiveError × Files
  encrypt_fileobj nonce writes source destination hex_key files = elim (key_bytes hex_key) [
    | none ↦ (some bad_key, files)
    | some key ↦
        if contains destination files
        then (some file_exists, files)
        else let created = insert destination [] files in
          elim (if writes then sealed key nonce source else none) [
            | none ↦ (some io_error, erase destination created)
            | some bytes ↦ (none, insert destination bytes created)
          ]
  ]

  unfoldable pub encrypt_file :
      Text → Bool → Text → Text → Text → Files → Option ArchiveError × Files
  encrypt_file nonce writes source destination hex_key files = elim (lookup source files) [
    | none ↦ (some not_found, files)
    | some bytes ↦ encrypt_fileobj nonce writes bytes destination hex_key files
  ]

  -- `decrypt_fileobj`, of the bytes of its source: what it has written when it returns
  unfoldable pub decrypt_fileobj : (ℕ → Bool) → Text → Text → Result
  decrypt_fileobj writes source hex_key =
      let size = length source in
      let body = drop (length magic) source in
      let nonce = take nonce_size body in
      let tag = drop (size - tag_size) source in
      let remaining = size - length magic - nonce_size - tag_size in
      elim (key_bytes hex_key) [
        | none ↦ raises bad_key
        | some key ↦
            if ltb size (length magic + nonce_size + tag_size)
            then raises too_short
            else if not (take (length magic) source == magic)
            then raises not_an_archive
            else elim (decrypt_loop writes chunk_size (suc remaining) remaining
                (drop nonce_size body) 0 (a.decryptor key nonce tag (magic ++ nonce), [])) [
                  | stopped e ↦ raises e
                  | written c out n ↦ elim (a.finalize c) [
                    | none ↦ raises invalid_tag
                    | some last ↦
                        if writes n && (writes (suc n) && writes (suc (suc n)))
                        then returns (out ++ last)
                        else raises io_error
                  ]
                ]
      ]

  unfoldable pub decrypt_file :
      (ℕ → Bool) → Text → Text → Text → Files → Option ArchiveError × Files
  decrypt_file writes source destination hex_key files =
      let created = insert destination [] files in
      if contains destination files
      then (some file_exists, files)
      else elim (lookup source created) [
        | none ↦ (some not_found, erase destination created)
        | some bytes ↦ elim (decrypt_fileobj writes bytes hex_key) [
          | raises e ↦ (some e, erase destination created)
          | returns out ↦ (none, insert destination out created)
        ]
      ]
