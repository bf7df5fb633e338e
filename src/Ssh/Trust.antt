-- ===== src/Ssh/Trust.antt =====
-- What the host keys on disk are worth, in backend/app/ssh_transport.py: no call but a reset or a
-- verified replacement changes a recorded key.
use lab_gpu_server_monitor.Prelude.{
  ℕ, ◌≡◌, Bool, true, false, not, Option, some, [], ◌∷◌, Text, codes, text_eq, text_beq_iff, ◌==◌,
  inl, inr, arith, Bool-cases, Option-cases, starts_with,
}
use lab_gpu_server_monitor.Prelude.Table.{lookup, lookup-insert, lookup-erase_ne}
use lab_gpu_server_monitor.Ssh.{
  Outcome, Paramiko, Credential, Remote, Dial, host_pattern, Outcome-cases, Check-cases,
}
use lab_gpu_server_monitor.Ssh.HostKeys.{
  file, link, folder, Disk, Storage, Run, sweep, ensure_hostkey_storage_locked, under_lock,
  hostkey_path, tofu_pattern, forget_hostkey, payload, publish, first_use, record_key,
  missing_host_key,
}
use lab_gpu_server_monitor.Ssh.Connect.{
  SshRequest, Policy, reject, tofu, ident, address, new_client, credential, with_legacy, ask_policy,
  greet, open_client, connect_host,
}
use lab_gpu_server_monitor.Ssh.Connect.Replace.{
  pin, pin_if_expected, replace_hostkey_with_expected_fingerprint, validate_expected_fingerprint,
}

-- a file that the storage check takes for no leftover
abbrev pub is_kept : Text → Bool
is_kept path = not (starts_with (codes ".hostkey-") path)

module _ (path text : Text) where
  -- a recorded key, as the text of its file
  abbrev pub Pinned : Disk → Type 0
  Pinned d = lookup path d ≡ some (file text)

  module _ (kept : is_kept path ≡ true) where
    sweep-Pinned : (d : Disk) → Pinned d → Pinned (sweep d).1
    unfolding sweep
    sweep-Pinned [] h = h
    sweep-Pinned ((name, file t) ∷ d) h =
        ground (arith, kept, text_beq_iff name path, sweep-Pinned d)
    sweep-Pinned ((name, link t) ∷ d) h =
        ground (arith, kept, text_beq_iff name path, sweep-Pinned d)
    sweep-Pinned ((name, folder) ∷ d) h =
        ground (arith, kept, text_beq_iff name path, sweep-Pinned d)

    ensure-Pinned :
        (fs : Storage) (d : Disk) → Pinned d → Pinned (ensure_hostkey_storage_locked fs d).1
    unfolding ensure_hostkey_storage_locked
    ensure-Pinned fs d h = ground (arith, sweep-Pinned d h)

    pub under_lock-Pinned :
        {A : Type 0} (fs : Storage) (d : Disk) (body : Disk → Run A)
        → ((e : Disk) → Pinned e → Pinned (body e).1)
        → Pinned d
        → Pinned (under_lock fs d body).1
    unfolding under_lock
    under_lock-Pinned fs d body keeps h =
        let ready = (ensure_hostkey_storage_locked fs d).1 in
        ground (arith, keeps ready (ensure-Pinned fs d h), ensure-Pinned fs d h)

    module _ (p : Paramiko) (fs : Storage) where
      publish-Pinned :
          (at pattern hostname : Text) (key : p.PKey) (d : Disk)
          → (at == path) ≡ false
          → Pinned d
          → Pinned (publish p fs at pattern hostname key d).1
      unfolding publish
      publish-Pinned at pattern hostname key d other h = elim (Option-cases fs.rival) [
        | inl alone ↦
            ground (arith, alone, h, lookup-insert at path (file (payload p pattern key)) d, other)
        | inr (t, raced) ↦ ground (arith, raced, h, lookup-insert at path (file t) d, other)
      ]

      record_key-Pinned :
          (at pattern hostname : Text) (key : p.PKey) (d : Disk)
          → Pinned d
          → Pinned (record_key p fs at pattern hostname key d).1
      unfolding record_key first_use
      record_key-Pinned at pattern hostname key d h = elim (Bool-cases (at == path)) [
        | inl same ↦ ground (arith, h, text_beq_iff at path)
        | inr other ↦ ground (arith, h, publish-Pinned at pattern hostname key d other h)
      ]

      missing_host_key-Pinned :
          (at pattern hostname : Text) (key : p.PKey) (keys : p.HostKeys) (d : Disk)
          → Pinned d
          → Pinned (missing_host_key p fs at pattern hostname key keys d).1
      unfolding missing_host_key
      missing_host_key-Pinned at pattern hostname key keys d h =
          under_lock-Pinned fs d (record_key p fs at pattern hostname key)
            (record_key-Pinned at pattern hostname key) h

      ask_policy-Pinned :
          (policy : Policy) (r : SshRequest) (remote : Remote p) (c : Credential p)
          (keys : p.HostKeys) (d : Disk)
          → Pinned d
          → Pinned (ask_policy p fs policy r remote c keys d).1
      unfolding ask_policy
      ask_policy-Pinned reject r remote c keys d h = h
      ask_policy-Pinned (tofu pattern) r remote c keys d h =
          missing_host_key-Pinned (hostkey_path (ident r)) pattern (host_pattern r.host r.port)
            remote.host_key keys d h

      greet-Pinned :
          (policy : Policy) (r : SshRequest) (remote : Remote p) (c : Credential p)
          (keys : p.HostKeys) (d : Disk)
          → Pinned d
          → Pinned (greet p fs policy r remote c keys d).1
      unfolding greet
      greet-Pinned policy r remote c keys d h =
          elim (Check-cases (p.check keys r.host r.port remote.host_key)) [
            | inl new ↦ ground (arith, new, ask_policy-Pinned policy r remote c keys d h)
            | inr (inl good) ↦ ground (arith, good, h)
            | inr (inr (k, bad)) ↦ ground (arith, bad, h)
          ]

      open_client-Pinned :
          (dial : Dial p) (r : SshRequest) (policy : Policy) (c : Credential p) (keys : p.HostKeys)
          (d : Disk)
          → Pinned d
          → Pinned (open_client p fs dial r policy c keys d).1
      unfolding open_client
      open_client-Pinned dial r policy c keys d h =
          elim (Outcome-cases (dial (address p r) r.port)) [
            | inl (remote, up) ↦ ground (arith, up, greet-Pinned policy r remote c keys d h)
            | inr (e, down) ↦ ground (arith, down, h)
          ]

      pub connect_host-Pinned :
          (root : Bool) (dial : Dial p) (r : SshRequest) (d : Disk)
          → Pinned d
          → Pinned (connect_host p root fs dial r d).1
      unfolding connect_host
      connect_host-Pinned root dial r d h = elim (Outcome-cases (new_client p r d)) [
        | inr (e, bad) ↦ ground (arith, bad, h)
        | inl (made, good) ↦ elim (Outcome-cases (credential p r)) [
          | inr (e, bad) ↦ ground (arith, bad, good, h)
          | inl (c, held) ↦ ground (
            arith,
            good,
            held,
            h,
            open_client-Pinned dial r made.1 c (with_legacy p r made.0) d h,
          )
        ]
      ]

    pub forget_hostkey-Pinned :
        (fs : Storage) (key : Text) (d : Disk)
        → (hostkey_path key == path) ≡ false
        → Pinned d
        → Pinned (forget_hostkey fs key d).1
    unfolding forget_hostkey
    forget_hostkey-Pinned fs key d other h =
        under_lock-Pinned fs d _
          (λ e pinned. ground (arith, pinned, lookup-erase_ne (hostkey_path key) path e other)) h

    pin_if_expected-Pinned :
        (p : Paramiko) (fs : Storage) (at pattern host expected : Text) (key : p.PKey) (d : Disk)
        → (at == path) ≡ false
        → Pinned d
        → Pinned (pin_if_expected p fs at pattern host expected key d).1
    unfolding pin_if_expected pin
    pin_if_expected-Pinned p fs at pattern host expected key d other h = ground (
      arith,
      h,
      under_lock-Pinned fs d (pin p fs at pattern host key)
          (λ e pinned.
            ground (arith, pinned, other, lookup-insert at path (file (payload p pattern key)) e))
          h,
    )

    pub replace-Pinned :
        (p : Paramiko) (b64decode : Text → Option Text) (fs : Storage)
        (fetch : Text → ℕ → Outcome p.PKey) (host : Text) (port : ℕ) (key value : Text) (d : Disk)
        → (hostkey_path key == path) ≡ false
        → Pinned d
        → Pinned
            (replace_hostkey_with_expected_fingerprint p b64decode fs fetch host port key value d).1
    unfolding replace_hostkey_with_expected_fingerprint
    replace-Pinned p b64decode fs fetch host port key value d other h =
        elim (Outcome-cases (validate_expected_fingerprint b64decode value)) [
          | inr (e, bad) ↦ ground (arith, bad, h)
          | inl (expected, good) ↦ elim (Outcome-cases (tofu_pattern host port)) [
            | inr (e, bad) ↦ ground (arith, good, bad, h)
            | inl (pattern, fine) ↦ elim (Outcome-cases (fetch host port)) [
              | inr (e, bad) ↦ ground (arith, good, fine, bad, h)
              | inl (shown, up) ↦ ground (
                arith,
                good,
                fine,
                up,
                pin_if_expected-Pinned p fs (hostkey_path key) pattern host expected shown d other
                    h,
              )
            ]
          ]
        ]
