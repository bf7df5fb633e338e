-- ===== src/Ssh/Pins.antt =====
-- Host keys over time, in backend/app/ssh_transport.py: connections, resets and replacements in any
-- order.
use mathlib.Core.Path.{subst}
use mathlib.Core.List.{append_cancel_left, append_cancel_right}
use lab_gpu_server_monitor.Prelude.{
  ℕ, ◌≡◌, refl, sym, ap, ◌∙◌, Bool, true, not, Option, List, [], ◌∷◌, ◌++◌, map, Text, codes,
  text_eq, text_beq_iff, ◌==◌, inl, inr, arith, Option-cases, beq_refl, non_empty, all, All, strip,
}
use lab_gpu_server_monitor.Prelude.Table.{lookup-insert}
use lab_gpu_server_monitor.Prelude.Decimal.{decimal, decimal_inj, decimal-IsDigit, IsDigit}
use lab_gpu_server_monitor.Ssh.{
  Outcome, returns, Paramiko, Dial, host_pattern, known, IsClient, Outcome-cases,
}
use lab_gpu_server_monitor.Ssh.HostKeys.{
  file, Disk, Storage, Run, under_lock, hostkey_path, safe_char, forget_hostkey, tofu_pattern,
  payload, verify_recorded_key,
}
use lab_gpu_server_monitor.Ssh.Connect.{SshRequest, Client, ident, connect_host}
use lab_gpu_server_monitor.Ssh.Connect.Replace.{
  rstrip_equals, skip, validate_expected_fingerprint, pin, pin_if_expected,
  replace_hostkey_with_expected_fingerprint,
}
use lab_gpu_server_monitor.Ssh.Trust.{
  is_kept, Pinned, connect_host-Pinned, forget_hostkey-Pinned, replace-Pinned,
}
use lab_gpu_server_monitor.Ssh.Known.{granted, connect_host-granted, verify_recorded_key-known}
use lab_gpu_server_monitor.Ssh.FirstUse.{under_lock-body, tofu_pattern-host_pattern}

-- a use of the host keys, with what the file system and the network are then like
pub data Call (p : Paramiko) : Type 0 where
  connects : Bool → Storage → Dial p → SshRequest → Call p
  forgets : Storage → Text → Call p
  replaces :
      (Text → Option Text) → Storage → (Text → ℕ → Outcome p.PKey) → Text → ℕ → Text → Text → Call p

module _ (p : Paramiko) where
  abbrev pub serve : Call p → Disk → Disk
  serve (connects root fs dial r) d = (connect_host p root fs dial r d).1
  serve (forgets fs key) d = (forget_hostkey fs key d).1
  serve (replaces b64decode fs fetch host port key value) d =
      (replace_hostkey_with_expected_fingerprint p b64decode fs fetch host port key value d).1

  abbrev pub serve_all : List (Call p) → Disk → Disk
  serve_all [] d = d
  serve_all (c ∷ calls) d = serve_all calls (serve c d)

  -- a call that neither resets nor replaces the key under a path
  abbrev pub leaves : Text → Call p → Bool
  leaves path (connects root fs dial r) = true
  leaves path (forgets fs key) = not (hostkey_path key == path)
  leaves path (replaces b64decode fs fetch host port key value) = not (hostkey_path key == path)

  module _ (path text : Text) (kept : is_kept path ≡ true) where
    serve-Pinned :
        (c : Call p) (d : Disk)
        → leaves path c ≡ true
        → Pinned path text d
        → Pinned path text (serve c d)
    serve-Pinned (connects root fs dial r) d other h =
        connect_host-Pinned path text kept p fs root dial r d h
    serve-Pinned (forgets fs key) d other h =
        forget_hostkey-Pinned path text kept fs key d (ground arith) h
    serve-Pinned (replaces b64decode fs fetch host port key value) d other h =
        replace-Pinned path text kept p b64decode fs fetch host port key value d (ground arith) h

    serve_all-Pinned :
        (calls : List (Call p)) (d : Disk)
        → all (leaves path) calls ≡ true
        → Pinned path text d
        → Pinned path text (serve_all calls d)
    serve_all-Pinned [] d other h = h
    serve_all-Pinned (c ∷ calls) d other h =
        serve_all-Pinned calls (serve c d) (ground arith) (serve-Pinned c d (ground arith) h)

  -- Once a key is recorded for a server, in a file that is not empty and whose name is no
  -- leftover's, every later connection to it that succeeds is with a key which that file grants to
  -- the host, or to the address that it was resolved to, whatever connections, resets and
  -- replacements have come between, as long as none of them resets or replaces this file.
  pub connect_host-granted_forever :
      (h : IsClient p) (calls : List (Call p)) (d : Disk) (text : Text) (root : Bool) (fs : Storage)
      (dial : Dial p) (r : SshRequest) (client : Client p)
      → is_kept (hostkey_path (ident r)) ≡ true
      → non_empty text ≡ true
      → Pinned (hostkey_path (ident r)) text d
      → all (leaves (hostkey_path (ident r))) calls ≡ true
      → (connect_host p root fs dial r (serve_all calls d)).0 ≡ returns client
      → granted p text r client.peer ≡ true
  connect_host-granted_forever h calls d text root fs dial r client kept full pinned others done =
      let path = hostkey_path (ident r) in
      connect_host-granted p h root fs dial r (serve_all calls d) text client full
        (serve_all-Pinned path text kept calls d others pinned) done

  expected-print :
      (b64decode : Text → Option Text) (value expected : Text)
      → validate_expected_fingerprint b64decode value ≡ returns expected
      → rstrip_equals (strip value) ≡ expected
  unfolding validate_expected_fingerprint
  expected-print b64decode value expected made =
      elim (Option-cases (b64decode (skip 7 (rstrip_equals (strip value)) ++ codes "="))) [
        | inl bad ↦ absurd (ground (arith, bad, made))
        | inr (digest, good) ↦ ground (arith, good, made)
      ]

  -- a file that holds a key under a host's name, read back
  abbrev pub Holds : Text → Text → p.PKey → Disk → Type 0
  Holds path pattern key d =
      (known p (p.load (payload p pattern key) p.no_keys) pattern key ≡ true)
      × Pinned path (payload p pattern key) d

  pin-Holds :
      (fs : Storage) (path pattern host : Text) (key : p.PKey) (d : Disk)
      → (pin p fs path pattern host key d).0 ≡ returns tt
      → Holds path pattern key (pin p fs path pattern host key d).1
  unfolding pin
  pin-Holds fs path pattern host key d done =
      elim (Outcome-cases (verify_recorded_key p (payload p pattern key) pattern host key)) [
        | inr (e, bad) ↦ absurd (ground (arith, bad, done))
        | inl (t, good) ↦ (
          verify_recorded_key-known p (payload p pattern key) pattern host key good,
          ground (
            arith,
            good,
            done,
            beq_refl path,
            lookup-insert path path (file (payload p pattern key)) d,
          ),
        )
      ]

  pin_if_expected-Holds :
      (fs : Storage) (path pattern host expected print : Text) (key : p.PKey) (d : Disk)
      → (pin_if_expected p fs path pattern host expected key d).0 ≡ returns print
      → (rstrip_equals (p.fingerprint key) ≡ expected)
        × Holds path pattern key (pin_if_expected p fs path pattern host expected key d).1
  unfolding pin_if_expected
  pin_if_expected-Holds fs path pattern host expected print key d done =
      let body = pin p fs path pattern host key in
      let same : (rstrip_equals (p.fingerprint key) == expected) ≡ true = ground (arith, done) in
      let locked_well : (t : Unit) × ((under_lock fs d body).0 ≡ returns t) =
        elim (Outcome-cases (under_lock fs d body).0) [
          | inl found ↦ found
          | inr (e, bad) ↦ absurd (ground (arith, same, bad, done))
        ] in
      let (ready, through) = under_lock-body fs d body locked_well.0 locked_well.1 in
      let held = pin-Holds fs path pattern host key ready (ap (λ o. o.0) through ∙ locked_well.1) in
      let moved : Holds path pattern key (under_lock fs d body).1 =
        subst (λ (o : Run Unit). Holds path pattern key o.1) through held in
      (
        (text_beq_iff (rstrip_equals (p.fingerprint key)) expected).0 same,
        rw (pin_if_expected, same) moved,
      )

  -- A replacement that succeeds has fetched a key with the expected fingerprint, but for the
  -- padding and the space around it, and leaves a file that holds this key and, read back, grants
  -- it to the host.
  pub replace_hostkey_with_expected_fingerprint-Holds :
      (b64decode : Text → Option Text) (fs : Storage) (fetch : Text → ℕ → Outcome p.PKey)
      (host : Text) (port : ℕ) (server_key value print : Text) (d : Disk)
      → (replace_hostkey_with_expected_fingerprint p b64decode fs fetch host port server_key value
          d).0
        ≡ returns print
      → (key : p.PKey) × (fetch host port ≡ returns key)
        × (rstrip_equals (p.fingerprint key) ≡ rstrip_equals (strip value))
        × Holds
            (hostkey_path server_key)
            (host_pattern host port)
            key
            (replace_hostkey_with_expected_fingerprint p b64decode fs fetch host port server_key
              value d).1
  unfolding replace_hostkey_with_expected_fingerprint
  replace_hostkey_with_expected_fingerprint-Holds b64decode fs fetch host port server_key value
        print d done =
      elim (Outcome-cases (validate_expected_fingerprint b64decode value)) [
        | inr (e, bad) ↦ absurd (ground (arith, bad, done))
        | inl (expected, good) ↦ elim (Outcome-cases (tofu_pattern host port)) [
          | inr (e, bad) ↦ absurd (ground (arith, good, bad, done))
          | inl (pattern, fine) ↦ elim (Outcome-cases (fetch host port)) [
            | inr (e, bad) ↦ absurd (ground (arith, good, fine, bad, done))
            | inl (key, up) ↦
                let path = hostkey_path server_key in
                let (same, held) =
                  pin_if_expected-Holds fs path pattern host expected print key d
                    (ground (arith, good, fine, up, done)) in
                let left : Holds path pattern key
                    (replace_hostkey_with_expected_fingerprint p b64decode fs fetch host port
                      server_key value d).1 =
                  rw (replace_hostkey_with_expected_fingerprint, good, fine, up) held in
                let named = tofu_pattern-host_pattern host pattern port fine in
                (
                  key,
                  up,
                  same ∙ sym (expected-print b64decode value expected good),
                  subst
                      (λ (n : Text).
                        Holds path n key
                          (replace_hostkey_with_expected_fingerprint p b64decode fs fetch host port
                            server_key value d).1)
                      named left,
                )
          ]
        ]
      ]

-- the name under which `connect_server` records a server's key
abbrev pub server_ident : ℕ → Text
server_ident n = codes "server_" ++ decimal n

safe_digits : (t : Text) → All IsDigit t → map safe_char t ≡ t
safe_digits [] h = refl
safe_digits (c ∷ t) h = ground (arith, safe_digits t h.1, h.0)

-- Two servers' keys are in different files.
pub hostkey_path-inj :
    (m n : ℕ) → hostkey_path (server_ident m) ≡ hostkey_path (server_ident n) → m ≡ n
unfolding hostkey_path
hostkey_path-inj m n same =
    let trimmed =
      append_cancel_right (map safe_char (server_ident m)) (map safe_char (server_ident n))
        (codes ".keys") same in
    let tail =
      append_cancel_left (codes "server_") (map safe_char (decimal m)) (map safe_char (decimal n))
        trimmed in
    decimal_inj m n (
      sym (safe_digits (decimal m) (decimal-IsDigit m))
      ∙ tail
      ∙ safe_digits (decimal n) (decimal-IsDigit n))
