-- ===== src/Archive/Frame.antt =====
-- What an archive of backend/app/archive_crypto.py says once it is read.
use lab_gpu_server_monitor.Prelude.{
  ℕ, zero, suc, ◌+◌, ◌-◌, ◌≤◌, ◌<◌, ◌≡◌, refl, ap, ◌∙◌, min, Bool, true, false, ◌&&◌, ◌⊎◌,
  if◌then◌else◌, Option, none, some, List, [], ◌∷◌, ◌++◌, Text, text_eq, nat_beq, ltb, ◌==◌, take,
  length, arith, Bool-cases, Option-cases, inl, inr,
}
use lab_gpu_server_monitor.Archive.{
  Aead, Stream, Progress, written, stopped, io_error, Result, returns, raises, invalid_tag, drop,
  magic, nonce_size, tag_size, chunk_size, key_bytes, feed_one, encrypt_loop, decrypt_loop,
  decrypt_fileobj,
}

take-drop : (n : ℕ) (xs : List ℕ) → take n xs ++ drop n xs ≡ xs
take-drop zero xs = refl
take-drop (suc n) [] = refl
take-drop (suc n) (x ∷ xs) = ground (arith, take-drop n xs)

length-take : (n : ℕ) (xs : List ℕ) → length (take n xs) ≡ min n (length xs)
length-take zero xs = omega arith
length-take (suc n) [] = omega arith
length-take (suc n) (x ∷ xs) = omega (arith, length-take n xs)

length-drop : (n : ℕ) (xs : List ℕ) → length (drop n xs) ≡ length xs - n
length-drop zero xs = omega arith
length-drop (suc n) [] = omega arith
length-drop (suc n) (x ∷ xs) = omega (arith, length-drop n xs)

pub take-append : (xs ys : List ℕ) → take (length xs) (xs ++ ys) ≡ xs
take-append [] ys = refl
take-append (x ∷ xs) ys = ground (arith, take-append xs ys)

pub drop-append : (xs ys : List ℕ) → drop (length xs) (xs ++ ys) ≡ ys
drop-append [] ys = refl
drop-append (x ∷ xs) ys = drop-append xs ys

-- the parts one after the other
abbrev pub join : List Text → Text
join [] = []
join (p ∷ ps) = p ++ join ps

module _ (a : Aead) where
  abbrev pub feed : List Text → Stream a → Stream a
  feed [] s = s
  feed (p ∷ ps) s = feed ps (feed_one a p s)

  -- what a stream ends with
  abbrev pub finished : Stream a → Option Text
  finished (c, out) = elim (a.finalize c) [ none ↦ none | some last ↦ some (out ++ last) ]

-- The documented behaviour of AES-GCM: encryption of a whole text to a ciphertext and a tag of 16
-- bytes, decryption that inverts it; the contexts give the same in whatever parts they are fed.
pub record IsGcm (a : Aead) : Type 0 where
  pub seal : Text → Text → Text → Text → Text × Text
  pub unseal : Text → Text → Text → Text → Text → Option Text
  pub unseal-seal :
      (key nonce aad text : Text)
      → unseal key nonce (seal key nonce aad text).1 aad (seal key nonce aad text).0 ≡ some text
  pub length-tag : (key nonce aad text : Text) → length (seal key nonce aad text).1 ≡ 16
  pub encrypts :
      (key nonce aad : Text) (parts : List Text)
      → (finished a (feed a parts (a.encryptor key nonce aad, []))
          ≡ some (seal key nonce aad (join parts)).0)
        × (a.tag (feed a parts (a.encryptor key nonce aad, [])).0
            ≡ (seal key nonce aad (join parts)).1)
  pub decrypts :
      (key nonce tag aad : Text) (parts : List Text)
      → finished a (feed a parts (a.decryptor key nonce tag aad, []))
        ≡ unseal key nonce tag aad (join parts)

take_nothing : (k : ℕ) → take {A = ℕ} k [] ≡ []
take_nothing zero = refl
take_nothing (suc k) = refl

take-take-drop : (n m : ℕ) (xs : List ℕ) → n ≤ m → take n xs ++ take (m - n) (drop n xs) ≡ take m xs
take-take-drop zero m xs le = ap (λ k. take k xs) (omega arith)
take-take-drop (suc n) zero xs le = absurd (omega arith)
take-take-drop (suc n) (suc m) [] le = take_nothing (suc m - suc n)
take-take-drop (suc n) (suc m) (x ∷ xs) le =
    let same : suc m - suc n ≡ m - n = omega arith in
    ap (λ r. x ∷ r)
      (ap (λ k. take n xs ++ take k (drop n xs)) same ∙ take-take-drop n m xs (omega arith))

-- a first part, and the parts of what then remains
join-read :
    (n k remaining : ℕ) (xs : Text) (parts : List Text)
    → k ≡ n
    → n ≤ remaining
    → join parts ≡ take (remaining - k) (drop n xs)
    → take n xs ++ join parts ≡ take remaining xs
join-read n k remaining xs parts same le rest =
    ap (λ t. take n xs ++ t) (rest ∙ ap (λ j. take (remaining - j) (drop n xs)) same)
    ∙ take-take-drop n remaining xs le

-- some write, flush or fsync fails
abbrev pub Fails : (ℕ → Bool) → Type 0
Fails writes = (i : ℕ) × (writes i ≡ false)

module _ (a : Aead) (size : ℕ) (pos : 0 < size) where
  -- With more fuel than bytes, the loop reads the whole source, in some parts.
  pub encrypt_loop-feed :
      (fuel : ℕ) (source : Text) (s : Stream a)
      → length source < fuel
      → (parts : List Text) × ((join parts ≡ source)
          × (encrypt_loop a size fuel source s ≡ feed a parts s))
  unfolding encrypt_loop
  encrypt_loop-feed zero source s le = absurd (omega arith)
  encrypt_loop-feed (suc fuel) source s le =
      let chunk = take size source in
      let read = length-take size source in
      elim (Bool-cases (nat_beq (length chunk) 0)) [
        | inl over ↦ ([], (empty source (ground (arith, over, read, pos)), ground (arith, over)))
        | inr more ↦
            let (parts, (all, fed)) =
              encrypt_loop-feed fuel (drop size source) (feed_one a chunk s)
                (ground (arith, le, read, more, length-drop size source)) in
            (
              chunk ∷ parts,
              (ap (λ r. chunk ++ r) all ∙ take-drop size source, ground (arith, more, fed)),
            )
      ]
    where
      empty : (xs : Text) → length xs ≡ 0 → [] ≡ xs
      empty [] h = refl
      empty (x ∷ xs) h = absurd (omega arith)

module _ (a : Aead) (writes : ℕ → Bool) (size : ℕ) (pos : 0 < size) where
  -- a write has failed, or all that remained is read, in some parts
  abbrev pub AreRead : ℕ → Text → Stream a → Progress a → Type 0
  AreRead remaining source s p =
      (Fails writes × (p ≡ stopped io_error))
      ⊎ ((parts : List Text) × ((join parts ≡ take remaining source)
            × ((n : ℕ) × (p ≡ written (feed a parts s).0 (feed a parts s).1 n))))

  pub decrypt_loop-feed :
      (fuel remaining : ℕ) (source : Text) (done : ℕ) (s : Stream a)
      → remaining < fuel
      → remaining ≤ length source
      → AreRead remaining source s (decrypt_loop a writes size fuel remaining source done s)
  unfolding decrypt_loop
  decrypt_loop-feed zero remaining source done s le enough = absurd (omega arith)
  decrypt_loop-feed (suc fuel) zero source done s le enough = inr ([], (refl, (done, refl)))
  decrypt_loop-feed (suc fuel) (suc r) source done s le enough =
      let n = min size (suc r) in
      let chunk = take n source in
      let read = length-take n source in
      let exact : length chunk ≡ n = omega (arith, read, enough) in
      let some_read : nat_beq (length chunk) 0 ≡ false = ground (arith, exact, pos) in
      let rest =
        decrypt_loop-feed fuel (suc r - length chunk) (drop n source) (suc done)
          (feed_one a chunk s) (omega (arith, exact, pos, le))
          (omega (arith, exact, enough, length-drop n source)) in
      elim (Bool-cases (writes done)) [
        | inr bad ↦ inl ((done, bad), ground (arith, some_read, bad))
        | inl good ↦ elim rest [
          | inl (fails, stop) ↦ inl (fails, ground (arith, some_read, good, stop))
          | inr (parts, (all, (count, fed))) ↦ inr (
            chunk ∷ parts,
            (
              join-read n (length chunk) (suc r) source parts exact (omega arith) all,
              (count, ground (arith, some_read, good, fed)),
            ),
          )
        ]
      ]

-- the parts of an archive
abbrev pub nonce_of : Text → Text
nonce_of source = take nonce_size (drop (length magic) source)

abbrev pub ciphertext_of : Text → Text
ciphertext_of source =
    take (length source - length magic - nonce_size - tag_size)
      (drop nonce_size (drop (length magic) source))

abbrev pub tag_of : Text → Text
tag_of source = drop (length source - tag_size) source

abbrev pub reply : Option Text → Result
reply none = raises invalid_tag
reply (some text) = returns text

-- a write has failed, or the answer is what AES-GCM opens
abbrev pub IsReply : (ℕ → Bool) → Option Text → Result → Type 0
IsReply writes o r = (Fails writes × (r ≡ raises io_error)) ⊎ (r ≡ reply o)

-- what comes after the loop
abbrev ending : (a : Aead) → (ℕ → Bool) → Progress a → Result
ending a writes (stopped e) = raises e
ending a writes (written c out n) = elim (a.finalize c) [
  | none ↦ raises invalid_tag
  | some last ↦
      if writes n && (writes (suc n) && writes (suc (suc n)))
      then returns (out ++ last)
      else raises io_error
]

finished-IsReply :
    (a : Aead) (writes : ℕ → Bool) (s : Stream a) (n : ℕ) (o : Option Text)
    → finished a s ≡ o
    → IsReply writes o (ending a writes (written s.0 s.1 n))
finished-IsReply a writes (c, out) n o h = elim (Option-cases (a.finalize c)) [
  | inl failed ↦ inr (ground (arith, failed, h))
  | inr (last, ended) ↦ elim (Bool-cases (writes n)) [
    | inr bad ↦ inl ((n, bad), ground (arith, ended, bad))
    | inl first ↦ elim (Bool-cases (writes (suc n))) [
      | inr bad ↦ inl ((suc n, bad), ground (arith, ended, first, bad))
      | inl second ↦ elim (Bool-cases (writes (suc (suc n)))) [
        | inr bad ↦ inl ((suc (suc n), bad), ground (arith, ended, first, second, bad))
        | inl third ↦ inr (ground (arith, ended, first, second, third, h))
      ]
    ]
  ]
]

module _ (a : Aead) (g : IsGcm a) (writes : ℕ → Bool) where
  -- Of a source that is long enough and begins as an archive does, decryption gives what AES-GCM
  -- opens, unless a write fails.
  pub decrypt_fileobj-IsReply :
      (source hex_key key : Text)
      → key_bytes hex_key ≡ some key
      → 36 ≤ length source
      → (take (length magic) source == magic) ≡ true
      → IsReply writes
          (g.unseal key
            (nonce_of source)
            (tag_of source)
            (magic ++ nonce_of source)
            (ciphertext_of source))
          (decrypt_fileobj a writes source hex_key)
  unfolding decrypt_fileobj
  decrypt_fileobj-IsReply source hex_key key good long begins =
      let remaining = length source - length magic - nonce_size - tag_size in
      let start : Stream a =
        (a.decryptor key (nonce_of source) (tag_of source) (magic ++ nonce_of source), []) in
      let body = drop nonce_size (drop (length magic) source) in
      let read =
        decrypt_loop-feed a writes chunk_size (omega arith) (suc remaining) remaining body 0 start
          (omega arith)
          (omega (
            arith,
            long,
            length-drop (length magic) source,
            length-drop nonce_size (drop (length magic) source),
          )) in
      let long_enough : ltb (length source) (length magic + nonce_size + tag_size) ≡ false =
        long_lem in
      elim read [
        | inl (fails, stop) ↦
            inl (fails, rw (decrypt_fileobj, good, long_enough, begins, stop) refl)
        | inr (parts, (all, (n, fed))) ↦
            let opened =
              g.decrypts key (nonce_of source) (tag_of source) (magic ++ nonce_of source) parts in
            let whole =
              opened
              ∙ ap (g.unseal key (nonce_of source) (tag_of source) (magic ++ nonce_of source))
                  all in
            rw (decrypt_fileobj, good, long_enough, begins, fed)
              (finished-IsReply a writes (feed a parts start) n _ whole)
      ]
    where
      long_lem : ltb (length source) (length magic + nonce_size + tag_size) ≡ false
      long_lem = ground (arith, long)
