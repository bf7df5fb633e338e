-- ===== src/Archive/Files.antt =====
-- What `encrypt_file` and `decrypt_file` of backend/app/archive_crypto.py do to the file system.
use lab_gpu_server_monitor.Prelude.{
  ℕ, Bool, ◌≤◌, ◌≡◌, ◌⊎◌, refl, sym, ◌∙◌, true, Option, none, some, [], ◌++◌, if◌then◌else◌, Text,
  text_eq, ◌==◌, take, length, ltb, arith, Option-cases, Bool-cases, inl, inr,
}
use mathlib.Core.Path.{subst}
use lab_gpu_server_monitor.Prelude.Table.{
  lookup, insert, erase, lookup-insert, lookup-erase_ne, lookup-erase_self, insert-IsDict, IsDict,
}
use lab_gpu_server_monitor.Archive.{
  Aead, ArchiveError, Files, Result, returns, raises, file_exists, not_found, magic, key_bytes,
  decrypt_fileobj, decrypt_file,
}
use lab_gpu_server_monitor.Archive.Frame.{
  IsGcm, IsReply, nonce_of, ciphertext_of, tag_of, reply, decrypt_fileobj-IsReply,
}

-- Creating a file and removing it again leaves the others, and what was not there.
lookup-create_remove :
    (path created : Text) (files : Files)
    → IsDict files
    → lookup created files ≡ none
    → lookup path (erase created (insert created [] files)) ≡ lookup path files
lookup-create_remove path created files d absent = elim (Bool-cases (created == path)) [
  | inl same ↦ ground (
    arith,
    same,
    text_eq.beq_iff created path,
    lookup-erase_self created (insert created [] files) (insert-IsDict created [] files d),
    absent,
  )
  | inr other ↦ ground (
    arith,
    other,
    lookup-erase_ne created path (insert created [] files),
    lookup-insert created path [] files,
  )
]

Result-cases :
    (r : Result) → ((out : Text) × (r ≡ returns out)) ⊎ ((e : ArchiveError) × (r ≡ raises e))
Result-cases (returns out) = inl (out, refl)
Result-cases (raises e) = inr (e, refl)

opened_text : (o : Option Text) (out : Text) → reply o ≡ returns out → o ≡ some out
opened_text none out h = cc
opened_text (some text) out h = cc

replied :
    {writes : ℕ → Bool} (o : Option Text) (r : Result) (out : Text)
    → IsReply writes o r
    → r ≡ returns out
    → o ≡ some out
replied o r out (inl (fails, stop)) h = absurd (ground (arith, stop, h))
replied o r out (inr answer) h = opened_text o out (sym answer ∙ h)

-- What AES-GCM opens of an archive's bytes, under a key in hexadecimal.
pub record IsOpened (a : Aead) (g : IsGcm a) (hex_key bytes out : Text) : Type 0 where
  pub key : Text
  pub is_key : key_bytes hex_key ≡ some key
  pub long : 36 ≤ length bytes
  pub begins : (take (length magic) bytes == magic) ≡ true
  pub opens :
      g.unseal key (nonce_of bytes) (tag_of bytes) (magic ++ nonce_of bytes) (ciphertext_of bytes)
      ≡ some out

module _ (a : Aead) (g : IsGcm a) (writes : ℕ → Bool) where
  pub decrypt_fileobj_sound :
      (bytes hex_key out : Text)
      → decrypt_fileobj a writes bytes hex_key ≡ returns out
      → IsOpened a g hex_key bytes out
  unfolding decrypt_fileobj
  decrypt_fileobj_sound bytes hex_key out h = elim (Option-cases (key_bytes hex_key)) [
    | inl bad ↦ absurd (ground (arith, bad, h))
    | inr (key, good) ↦ elim (Bool-cases (ltb (length bytes) 36)) [
      | inl short ↦ absurd (ground (arith, good, short, h))
      | inr long ↦ elim (Bool-cases (take (length magic) bytes == magic)) [
        | inr other ↦ absurd (ground (arith, good, long, other, h))
        | inl begins ↦ record {
          key = key;
          is_key = good;
          long = ground (arith, long);
          begins = begins;
          opens =
              replied _ _ out
                (decrypt_fileobj-IsReply a g writes bytes hex_key key good (ground (arith, long))
                  begins)
                h;
        }
      ]
    ]
  ]

  -- What a decryption has done where it succeeds: its destination was free, and holds what AES-GCM
  -- opens of the source; no other path has changed.
  pub record IsDecrypted (source destination hex_key : Text) (before after : Files) : Type 0 where
    pub bytes : Text
    pub out : Text
    pub free : lookup destination before ≡ none
    pub there : lookup source before ≡ some bytes
    pub opened : IsOpened a g hex_key bytes out
    pub now :
        (path : Text)
        → lookup path after ≡ (if destination == path then some out else lookup path before)

  abbrev pub IsSafe : Text → Text → Text → Files → Option ArchiveError × Files → Type 0
  IsSafe source destination hex_key before (error, after) =
      ((error ≡ none) × IsDecrypted source destination hex_key before after)
      ⊎ ((e : ArchiveError) × ((error ≡ some e)
            × ((path : Text) → lookup path after ≡ lookup path before)))

  transfer :
      (source destination hex_key : Text) (files : Files) (r r' : Option ArchiveError × Files)
      → r ≡ r'
      → IsSafe source destination hex_key files r'
      → IsSafe source destination hex_key files r
  transfer source destination hex_key files r r' e safe =
      subst (IsSafe source destination hex_key files) (sym e) safe

  -- Either a decryption succeeds, and its destination, which was free, holds what AES-GCM opens of
  -- the source under the key; or it fails, whatever the reason, whichever write, flush or fsync
  -- does not succeed, and every path is as it was, so that no text is left whose tag was not right.
  -- AES-GCM keeps its laws, no path stands twice for different files, and the file that is made
  -- can be removed.
  pub decrypt_file-IsSafe :
      (source destination hex_key : Text) (files : Files)
      → IsDict files
      → IsSafe source destination hex_key files
          (decrypt_file a writes source destination hex_key files)
  unfolding decrypt_file
  decrypt_file-IsSafe source destination hex_key files d =
      let created = insert destination [] files in
      let gone = erase destination created in
      let same = transfer source destination hex_key files in
      let result = decrypt_file a writes source destination hex_key files in
      elim (Option-cases (lookup destination files)) [
        | inr (old, taken) ↦
            same result (some file_exists, files) (ground (arith, taken))
              (inr (file_exists, (refl, λ path. refl)))
        | inl free ↦
            let undone : (path : Text) → lookup path gone ≡ lookup path files =
              λ path. lookup-create_remove path destination files d free in
            elim (Option-cases (lookup source created)) [
              | inl missing ↦
                  same result (some not_found, gone) (ground (arith, free, missing))
                    (inr (not_found, (refl, undone)))
              | inr (bytes, found) ↦ elim (Result-cases (decrypt_fileobj a writes bytes hex_key)) [
                | inr (e, failed) ↦
                    same result (some e, gone) (ground (arith, free, found, failed))
                      (inr (e, (refl, undone)))
                | inl (out, done) ↦
                    let opened = decrypt_fileobj_sound bytes hex_key out done in
                    same result (none, insert destination out created)
                      (ground (arith, free, found, done))
                      (inl (
                        refl,
                        record {
                          bytes = bytes;
                          out = out;
                          free = free;
                          there = ground (
                            arith,
                            found,
                            lookup-insert destination source [] files,
                            opened.long,
                          );
                          opened = opened;
                          now = λ path. ground (
                            arith,
                            lookup-insert destination path out created,
                            lookup-insert destination path [] files,
                          );
                        },
                      ))
              ]
            ]
      ]
