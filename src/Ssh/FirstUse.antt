-- ===== src/Ssh/FirstUse.antt =====
-- Trust on first use in backend/app/ssh_transport.py, and the replacement of a key: what they leave
-- on disk.
use mathlib.Core.Path.{subst}
use lab_gpu_server_monitor.Prelude.{
  ℕ, ◌≡◌, sym, ap, ◌∙◌, Bool, true, false, some, Text, text_eq, inl, inr, arith, Option-cases,
  beq_refl,
}
use lab_gpu_server_monitor.Prelude.Table.{lookup, lookup-insert}
use lab_gpu_server_monitor.Ssh.{
  returns, Paramiko, Credential, Remote, Dial, host_pattern, known, IsClient, Outcome-cases,
  Check-cases,
}
use lab_gpu_server_monitor.Ssh.HostKeys.{
  file, Disk, Storage, Run, opened, under_lock, ensure_hostkey_storage_locked, hostkey_path,
  has_recorded_key, tofu_pattern, payload, verify_recorded_key, publish, first_use, record_key,
  missing_host_key,
}
use lab_gpu_server_monitor.Ssh.Connect.{
  SshRequest, Policy, tofu, Client, ident, address, new_client, with_legacy, log_in, ask_policy,
  greet, open_client, connect_host,
}
use lab_gpu_server_monitor.Ssh.Known.{verify_recorded_key-known, log_in-peer, connect_host-parts}

-- What is done under the lock with success is what its body does on the checked disk.
pub under_lock-body :
    {A : Type 0} (fs : Storage) (d : Disk) (body : Disk → Run A) (a : A)
    → (under_lock fs d body).0 ≡ returns a
    → (ready : Disk) × (body ready ≡ under_lock fs d body)
unfolding under_lock
under_lock-body fs d body a done =
    let ready = ensure_hostkey_storage_locked fs d in
    elim (Outcome-cases ready.0) [
      | inr (e, bad) ↦ absurd (ground (arith, bad, done))
      | inl (t, good) ↦ (ready.1, ground (arith, good, done))
    ]

pub tofu_pattern-host_pattern :
    (host pattern : Text) (port : ℕ)
    → tofu_pattern host port ≡ returns pattern
    → pattern ≡ host_pattern host port
unfolding tofu_pattern
tofu_pattern-host_pattern host pattern port made = ground (arith, made)

module _ (p : Paramiko) (fs : Storage) where
  -- the file under a path, read back with a key verified in it
  abbrev Recorded : Text → Text → Text → p.PKey → Disk → Type 0
  Recorded path pattern hostname key d =
      (text : Text) × (opened (lookup path d) ≡ returns text)
      × (verify_recorded_key p text pattern hostname key ≡ returns tt)

  publish-Recorded :
      (path pattern hostname : Text) (key : p.PKey) (d : Disk)
      → verify_recorded_key p (payload p pattern key) pattern hostname key ≡ returns tt
      → (publish p fs path pattern hostname key d).0 ≡ returns tt
      → Recorded path pattern hostname key (publish p fs path pattern hostname key d).1
  unfolding publish
  publish-Recorded path pattern hostname key d good done = elim (Option-cases fs.rival) [
    | inl alone ↦
        let text = payload p pattern key in
        (text, ground (arith, alone, lookup-insert path path (file text) d, beq_refl path), good)
    | inr (text, raced) ↦ (
      text,
      ground (arith, raced, lookup-insert path path (file text) d, beq_refl path),
      ground (arith, raced, done),
    )
  ]

  record_key-Recorded :
      (path pattern hostname : Text) (key : p.PKey) (d : Disk)
      → (record_key p fs path pattern hostname key d).0 ≡ returns tt
      → Recorded path pattern hostname key (record_key p fs path pattern hostname key d).1
  unfolding record_key first_use
  record_key-Recorded path pattern hostname key d done = elim (Option-cases (lookup path d)) [
    | inr (e, there) ↦ elim (Outcome-cases (opened (some e))) [
      | inr (err, bad) ↦ absurd (ground (arith, there, bad, done))
      | inl (text, readable) ↦
          (text, ground (arith, there, readable), ground (arith, there, readable, done))
    ]
    | inl new ↦
        elim (Outcome-cases (verify_recorded_key p (payload p pattern key) pattern hostname key)) [
          | inr (err, bad) ↦ absurd (ground (arith, new, bad, done))
          | inl (t, good) ↦
              let same : record_key p fs path pattern hostname key d
                  ≡ publish p fs path pattern hostname key d =
                ground (arith, new, good, done) in
              rw same (
                publish-Recorded path pattern hostname key d good (ap (λ o. o.0) (sym same) ∙ done))
        ]
  ]

  missing_host_key-Recorded :
      (path pattern hostname : Text) (key : p.PKey) (keys more : p.HostKeys) (d : Disk)
      → (missing_host_key p fs path pattern hostname key keys d).0 ≡ returns more
      → Recorded path pattern hostname key
          (missing_host_key p fs path pattern hostname key keys d).1
  unfolding missing_host_key
  missing_host_key-Recorded path pattern hostname key keys more d done =
      let body = record_key p fs path pattern hostname key in
      elim (Outcome-cases (under_lock fs d body).0) [
        | inr (e, bad) ↦ absurd (ground (arith, bad, done))
        | inl (t, good) ↦
            let (ready, same) = under_lock-body fs d body t good in
            subst (λ (o : Run Unit). Recorded path pattern hostname key o.1) same
              (record_key-Recorded path pattern hostname key ready (ap (λ o. o.0) same ∙ good))
      ]

-- what the first use of a host leaves: a file that grants the key which the host has shown
abbrev pub Learnt : (p : Paramiko) → SshRequest → Client p → Disk → Type 0
Learnt p r client d =
    (text : Text) × (opened (lookup (hostkey_path (ident r)) d) ≡ returns text)
    × (known p (p.load text p.no_keys) (host_pattern r.host r.port) client.peer ≡ true)

module _ (p : Paramiko) (h : IsClient p) (root : Bool) (fs : Storage) (dial : Dial p)
    (r : SshRequest) where
  with_legacy-no_keys : with_legacy p r p.no_keys ≡ p.no_keys
  unfolding with_legacy
  with_legacy-no_keys = ground (
    arith,
    h.lookup-no_keys (host_pattern r.host r.port),
    h.lookup-no_keys (host_pattern r.connect_address r.port),
  )

  greet-Learnt :
      (remote : Remote p) (c : Credential p) (d : Disk) (client : Client p)
      → (greet p fs (tofu (host_pattern r.host r.port)) r remote c p.no_keys d).0 ≡ returns client
      → Learnt p r client (greet p fs (tofu (host_pattern r.host r.port)) r remote c p.no_keys d).1
  unfolding greet ask_policy
  greet-Learnt remote c d client done =
      let name = host_pattern r.host r.port in
      elim (Check-cases (p.check p.no_keys r.host r.port remote.host_key)) [
        | inr (inl good) ↦ absurd (
            ground (
              arith,
              h.lookup-no_keys name,
              h.check-trusted p.no_keys r.host r.port remote.host_key good,
            ))
        | inr (inr (k, bad)) ↦ absurd (ground (arith, bad, done))
        | inl new ↦
            let path = hostkey_path (ident r) in
            let key = remote.host_key in
            let asked = missing_host_key p fs path name name key p.no_keys d in
            elim (Outcome-cases asked.0) [
              | inr (e, bad) ↦ absurd (ground (arith, new, bad, done))
              | inl (more, good) ↦
                  let logged : log_in p remote r c more ≡ returns client =
                    ground (arith, new, good, done) in
                  let (text, readable, held) =
                    missing_host_key-Recorded p fs path name name key p.no_keys more d good in
                  let peer = log_in-peer p h root fs dial r remote c more client logged in
                  let learnt : Learnt p r client asked.1 = (
                    text,
                    readable,
                    ap (known p (p.load text p.no_keys) name) peer
                        ∙ verify_recorded_key-known p text name name key held,
                  ) in
                  rw (greet, ask_policy, new) learnt
            ]
      ]

  open_client-Learnt :
      (c : Credential p) (d : Disk) (client : Client p)
      → (open_client p fs dial r (tofu (host_pattern r.host r.port)) c p.no_keys d).0
        ≡ returns client
      → Learnt p r client
          (open_client p fs dial r (tofu (host_pattern r.host r.port)) c p.no_keys d).1
  unfolding open_client
  open_client-Learnt c d client done = elim (Outcome-cases (dial (address p r) r.port)) [
    | inr (e, down) ↦ absurd (ground (arith, down, done))
    | inl (remote, up) ↦
        rw (open_client, up) (greet-Learnt remote c d client (ground (arith, up, done)))
  ]

  new_client-tofu :
      (d : Disk) (made : p.HostKeys × Policy)
      → has_recorded_key (ident r) d ≡ false
      → new_client p r d ≡ returns made
      → made ≡ (p.no_keys, tofu (host_pattern r.host r.port))
  unfolding new_client
  new_client-tofu d made fresh good = elim (Outcome-cases (tofu_pattern r.host r.port)) [
    | inr (e, bad) ↦ absurd (ground (arith, fresh, bad, good))
    | inl (pattern, fine) ↦
        let same = tofu_pattern-host_pattern r.host pattern r.port fine in
        ground (arith, fresh, fine, good, same)
  ]

  -- A connection that succeeds where no key was recorded leaves a file under the server's name
  -- which grants the host the key that it has shown, also where another process has published a
  -- file meanwhile.
  pub connect_host-Learnt :
      (d : Disk) (client : Client p)
      → has_recorded_key (ident r) d ≡ false
      → (connect_host p root fs dial r d).0 ≡ returns client
      → Learnt p r client (connect_host p root fs dial r d).1
  unfolding connect_host
  connect_host-Learnt d client fresh done = elim (Outcome-cases (new_client p r d)) [
    | inr (e, bad) ↦ absurd (ground (arith, bad, done))
    | inl (made, good) ↦
        let first : p.HostKeys × Policy = (p.no_keys, tofu (host_pattern r.host r.port)) in
        let start = good ∙ ap returns (new_client-tofu d made fresh good) in
        let (c, same) = connect_host-parts p h root fs dial r d first client start done in
        let plain =
          ap (λ keys. open_client p fs dial r first.1 c keys d) (sym with_legacy-no_keys) in
        subst (λ (o : Run (Client p)). Learnt p r client o.1) (plain ∙ same)
          (open_client-Learnt c d client (ap (λ o. o.0) (plain ∙ same) ∙ done))
  ]
