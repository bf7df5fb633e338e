-- ===== src/Archive/Sealed.antt =====
-- What `encrypt_fileobj` of backend/app/archive_crypto.py writes is read back by `decrypt_fileobj`.
use lab_gpu_server_monitor.Prelude.{
  ℕ, suc, ◌+◌, ◌-◌, ◌≡◌, sym, ap, ◌∙◌, true, Option, none, some, [], ◌++◌, Text, text_eq, take,
  length, length-append, arith, beq_refl, Option-cases, inl, inr,
}
use mathlib.Core.List.{append_assoc}
use lab_gpu_server_monitor.Archive.{
  Aead, Stream, Result, returns, drop, magic, chunk_size, key_bytes, encrypt_loop, sealed,
  decrypt_fileobj,
}
use lab_gpu_server_monitor.Archive.Frame.{
  IsGcm, IsReply, finished, encrypt_loop-feed, nonce_of, ciphertext_of, tag_of, reply,
  decrypt_fileobj-IsReply, take-append, drop-append,
}

-- the bytes of an archive
abbrev pub frame : Text → Text → Text → Text
frame nonce ciphertext tag = magic ++ (nonce ++ (ciphertext ++ tag))

length-frame :
    (nonce ciphertext tag : Text)
    → length nonce ≡ 12
    → length tag ≡ 16
    → length (frame nonce ciphertext tag) ≡ 36 + length ciphertext
length-frame nonce ciphertext tag n t =
    omega (arith, n, t, length-append nonce (ciphertext ++ tag), length-append ciphertext tag)

take-at : (n : ℕ) (xs ys : Text) → length xs ≡ n → take n (xs ++ ys) ≡ xs
take-at n xs ys e = ap (λ k. take k (xs ++ ys)) (sym e) ∙ take-append xs ys

drop-at : (n : ℕ) (xs ys : Text) → length xs ≡ n → drop n (xs ++ ys) ≡ ys
drop-at n xs ys e = ap (λ k. drop k (xs ++ ys)) (sym e) ∙ drop-append xs ys

module _ (nonce ciphertext tag : Text) (n : length nonce ≡ 12) (t : length tag ≡ 16) where
  abbrev whole : Text
  whole = frame nonce ciphertext tag

  nonce_of-frame : nonce_of whole ≡ nonce
  nonce_of-frame = take-at 12 nonce (ciphertext ++ tag) n

  ciphertext_of-frame : ciphertext_of whole ≡ ciphertext
  ciphertext_of-frame =
      ap (take (length whole - 8 - 12 - 16)) (drop-at 12 nonce (ciphertext ++ tag) n)
      ∙ take-at (length whole - 8 - 12 - 16) ciphertext tag
          (omega (arith, length-frame nonce ciphertext tag n t))

  tag_of-frame : tag_of whole ≡ tag
  tag_of-frame =
      ap (drop (length whole - 16)) (sym (append_assoc (magic ++ nonce) ciphertext tag))
      ∙ drop-at (length whole - 16) ((magic ++ nonce) ++ ciphertext) tag
          (omega (arith, length-frame nonce ciphertext tag n t, length-append nonce ciphertext))

-- a stream that ends with a ciphertext and a tag
written-frame :
    (a : Aead) (nonce : Text) (s : Stream a) (ciphertext tag : Text)
    → finished a s ≡ some ciphertext
    → a.tag s.0 ≡ tag
    → (elim (a.finalize s.0) [
      | none ↦ none
      | some last ↦ some (magic ++ (nonce ++ (s.1 ++ (last ++ a.tag s.0))))
    ])
      ≡ some (frame nonce ciphertext tag)
written-frame a nonce (c, out) ciphertext tag body t = elim (Option-cases (a.finalize c)) [
  | inl failed ↦ ground (arith, failed, body)
  | inr (last, ended) ↦ ground (arith, ended, body, t, append_assoc out last (a.tag c))
]

all_written : (o : Option Text) (r : Result) → IsReply (λ n. true) o r → r ≡ reply o
all_written o r (inl ((i, bad), stop)) = absurd (ground (arith, bad))
all_written o r (inr answer) = answer

module _ (a : Aead) (g : IsGcm a) where
  pub sealed-frame :
      (key nonce text : Text)
      → sealed a key nonce text
        ≡ some (
            frame nonce
              (g.seal key nonce (magic ++ nonce) text).0
              (g.seal key nonce (magic ++ nonce) text).1)
  unfolding sealed
  sealed-frame key nonce text =
      let start : Stream a = (a.encryptor key nonce (magic ++ nonce), []) in
      let (parts, (all, fed)) =
        encrypt_loop-feed a chunk_size (omega arith) (suc (length text)) text start (omega arith) in
      let (body, tag) = g.encrypts key nonce (magic ++ nonce) parts in
      let to = g.seal key nonce (magic ++ nonce) in
      let stream = encrypt_loop a chunk_size (suc (length text)) text start in
      written-frame a nonce stream (to text).0 (to text).1
        (ap (finished a) fed ∙ body ∙ ap (λ r. some (to r).0) all)
        (ap (λ s. a.tag s.0) fed ∙ tag ∙ ap (λ r. (to r).1) all)

  -- What is sealed under a key is read back under it.
  pub decrypt_fileobj-sealed :
      (key nonce text hex_key bytes : Text)
      → key_bytes hex_key ≡ some key
      → length nonce ≡ 12
      → sealed a key nonce text ≡ some bytes
      → decrypt_fileobj a (λ n. true) bytes hex_key ≡ returns text
  decrypt_fileobj-sealed key nonce text hex_key bytes good n wrote =
      let (ct, tag) = g.seal key nonce (magic ++ nonce) text in
      let t = g.length-tag key nonce (magic ++ nonce) text in
      let written : some bytes ≡ some (frame nonce ct tag) =
        sym wrote ∙ sealed-frame key nonce text in
      let same : bytes ≡ frame nonce ct tag = cc in
      let f = frame nonce ct tag in
      let read = all_written _ _ (
        decrypt_fileobj-IsReply a g (λ n. true) f hex_key key good
          (omega (arith, length-frame nonce ct tag n t)) (beq_refl magic)) in
      ap (λ b. decrypt_fileobj a (λ n. true) b hex_key) same
      ∙ read
      ∙ ap (λ m. reply (g.unseal key m (tag_of f) (magic ++ m) (ciphertext_of f)))
          (nonce_of-frame nonce ct tag n t)
      ∙ ap (λ m. reply (g.unseal key nonce m (magic ++ nonce) (ciphertext_of f)))
          (tag_of-frame nonce ct tag n t)
      ∙ ap (λ m. reply (g.unseal key nonce tag (magic ++ nonce) m))
          (ciphertext_of-frame nonce ct tag n t)
      ∙ ap reply (g.unseal-seal key nonce (magic ++ nonce) text)
