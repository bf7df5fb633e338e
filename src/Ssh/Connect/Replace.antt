-- ===== src/Ssh/Connect/Replace.antt =====
-- `replace_hostkey_with_expected_fingerprint` of backend/app/ssh_transport.py, with the check of the
-- fingerprint that it is given.
use lab_gpu_server_monitor.Prelude.{
  ℕ, zero, suc, Bool, not, ◌&&◌, ◌||◌, Option, none, some, [], ◌∷◌, ◌++◌, if◌then◌else◌, Text,
  codes, text_eq, nat_beq, leb, ◌==◌, all, length, starts_with, strip, non_empty,
}
use lab_gpu_server_monitor.Prelude.Table.{insert}
use lab_gpu_server_monitor.Ssh.{
  host_key_fingerprint_mismatch, os_error, value_error, Outcome, returns, raises, Paramiko,
}
use lab_gpu_server_monitor.Ssh.HostKeys.{
  file, Disk, Storage, Run, failure, under_lock, hostkey_path, tofu_pattern, payload,
  verify_recorded_key,
}

-- `s.rstrip("=")`
unfoldable pub rstrip_equals : Text → Text
rstrip_equals [] = []
rstrip_equals (c ∷ s) =
    let rest = rstrip_equals s in if nat_beq c 61 && not (non_empty rest) then [] else c ∷ rest

abbrev pub base64_char : ℕ → Bool
base64_char c =
    leb 65 c && leb c 90
    || leb 97 c && leb c 122
    || leb 48 c && leb c 57
    || nat_beq c 43
    || nat_beq c 47

abbrev pub skip : ℕ → Text → Text
skip n [] = []
skip zero s = s
skip (suc n) (c ∷ s) = skip n s

-- `re.fullmatch(r"SHA256:[A-Za-z0-9+/]{43}", …)`
abbrev pub is_fingerprint : Text → Bool
is_fingerprint s =
    starts_with (codes "SHA256:") s && all base64_char (skip 7 s) && nat_beq (length (skip 7 s)) 43

-- `_validate_expected_fingerprint`, with `base64.b64decode` as a parameter
unfoldable pub validate_expected_fingerprint : (Text → Option Text) → Text → Outcome Text
validate_expected_fingerprint b64decode value =
    let print = rstrip_equals (strip value) in
    if is_fingerprint print
    then elim (b64decode (skip 7 print ++ codes "=")) [
      | none ↦ raises (failure value_error (codes "expected fingerprint is not valid base64"))
      | some digest ↦
          if nat_beq (length digest) 32
          then returns print
          else raises
              (failure value_error (codes "expected fingerprint must contain a SHA-256 digest"))
    ]
    else raises
        (failure value_error (codes "expected fingerprint must use OpenSSH SHA256:... format"))

module _ (p : Paramiko) where
  -- the file of a verified key, written aside, read back and moved into place
  unfoldable pub pin : Storage → Text → Text → Text → p.PKey → Disk → Run Unit
  pin fs path pattern host key d =
      if fs.writes
      then elim (verify_recorded_key p (payload p pattern key) pattern host key) [
        | raises e ↦ (raises e, d)
        | returns _ ↦ (
          if fs.syncs then returns tt else raises (failure os_error (codes "fsync")),
          insert path (file (payload p pattern key)) d,
        )
      ]
      else (raises (failure os_error (codes "short write while pinning SSH host key")), d)

  -- the part after the key has been fetched
  unfoldable pub pin_if_expected : Storage → Text → Text → Text → Text → p.PKey → Disk → Run Text
  pin_if_expected fs path pattern host expected key d =
      let actual = rstrip_equals (p.fingerprint key) in
      if actual == expected
      then (let result = under_lock fs d (pin fs path pattern host key) in
          (elim result.0 [ returns _ ↦ returns actual | raises e ↦ raises e ], result.1))
      else (
        raises (
            failure host_key_fingerprint_mismatch
              (codes "host key fingerprint mismatch (received " ++ (actual ++ codes ")"))),
        d,
      )

  unfoldable pub replace_hostkey_with_expected_fingerprint :
      (Text → Option Text)
      → Storage
      → (Text → ℕ → Outcome p.PKey)
      → Text
      → ℕ
      → Text
      → Text
      → Disk
      → Run Text
  replace_hostkey_with_expected_fingerprint b64decode fs fetch host port server_key value d =
      elim (validate_expected_fingerprint b64decode value) [
        | raises e ↦ (raises e, d)
        | returns expected ↦ elim (tofu_pattern host port) [
          | raises e ↦ (raises e, d)
          | returns pattern ↦ elim (fetch host port) [
            | raises e ↦ (raises e, d)
            | returns key ↦ pin_if_expected fs (hostkey_path server_key) pattern host expected key d
          ]
        ]
      ]
