-- ===== src/Ssh/Known.antt =====
-- Whom a client of backend/app/ssh_transport.py talks to: the keys that `connect_host` accepts.
use lab_gpu_server_monitor.Prelude.{
  ◌≡◌, refl, ap, ◌∙◌, ◌⊎◌, Bool, true, ◌&&◌, ◌||◌, some, List, [], ◌∷◌, Text, text_eq, ◌==◌, inl,
  inr, arith, Option-cases, non_empty,
}
use lab_gpu_server_monitor.Prelude.Table.{lookup}
use lab_gpu_server_monitor.Ssh.{
  returns, Paramiko, Credential, Remote, Dial, host_pattern, listed, known, IsClient, Outcome-cases,
  Check-cases,
}
use lab_gpu_server_monitor.Ssh.HostKeys.{Disk, Storage, hostkey_path, verify_recorded_key}
use lab_gpu_server_monitor.Ssh.Connect.{
  SshRequest, Policy, reject, Client, ident, address, new_client, credential, add_all, with_legacy,
  log_in, ask_policy, greet, open_client, connect_host,
}
use lab_gpu_server_monitor.Ssh.Trust.{Pinned}

module _ (p : Paramiko) where
  lookup-listed :
      (key k : p.PKey) (found : List (Text × p.PKey))
      → lookup (p.get_name key) found ≡ some k
      → (p.asbytes k == p.asbytes key) ≡ true
      → listed p key found ≡ true
  lookup-listed key k [] h same = cc
  lookup-listed key k ((name, j) ∷ found) h same = ground (arith, lookup-listed key k found)

  -- What the transport has verified in a file is among the file's keys.
  pub verify_recorded_key-known :
      (text pattern hostname : Text) (key : p.PKey)
      → verify_recorded_key p text pattern hostname key ≡ returns tt
      → known p (p.load text p.no_keys) pattern key ≡ true
  unfolding verify_recorded_key
  verify_recorded_key-known text pattern hostname key h =
      elim (Option-cases (p.lookup_name (p.load text p.no_keys) pattern)) [
        | inl missing ↦ absurd (ground (arith, missing, h))
        | inr (found, there) ↦ elim (Option-cases (lookup (p.get_name key) found)) [
          | inl other ↦ absurd (ground (arith, there, other, h))
          | inr (k, named) ↦ ground (arith, there, named, h, lookup-listed key k found named)
        ]
      ]

-- a key that a file grants a request: one under the host's name, or under that of the address
-- which the request has been resolved to
abbrev pub granted : (p : Paramiko) → Text → SshRequest → p.PKey → Bool
granted p text r key =
    let keys = p.load text p.no_keys in
    known p keys (host_pattern r.host r.port) key
    || non_empty r.connect_address && known p keys (host_pattern r.connect_address r.port) key

pub new_client-Pinned :
    (p : Paramiko) (r : SshRequest) (d : Disk) (text : Text)
    → non_empty text ≡ true
    → Pinned (hostkey_path (ident r)) text d
    → new_client p r d ≡ returns (p.load text p.no_keys, reject)
unfolding new_client
new_client-Pinned p r d text full pinned = rw (pinned, full) refl

module _ (p : Paramiko) (h : IsClient p) where
  known-add_all :
      (name : Text) (legacy : List (Text × p.PKey)) (keys : p.HostKeys) (key : p.PKey)
      → known p (add_all p name legacy keys) name key ≡ true
      → (known p keys name key ≡ true) ⊎ (listed p key legacy ≡ true)
  unfolding add_all
  known-add_all name [] keys key held = inl held
  known-add_all name ((algorithm, new) ∷ legacy) keys key held =
      elim (known-add_all name legacy (p.add keys name algorithm new) key held) [
        | inr rest ↦ inr (ground (arith, rest))
        | inl here ↦ elim (h.known-add keys name algorithm new key here) [
          | inl old ↦ inl old
          | inr added ↦ inr (ground (arith, added))
        ]
      ]

  with_legacy-granted :
      (text : Text) (r : SshRequest) (key : p.PKey)
      → known p (with_legacy p r (p.load text p.no_keys)) (host_pattern r.host r.port) key ≡ true
      → granted p text r key ≡ true
  unfolding with_legacy
  with_legacy-granted text r key held =
      let keys = p.load text p.no_keys in
      let name = host_pattern r.host r.port in
      let old = host_pattern r.connect_address r.port in
      elim (Option-cases (p.lookup_name keys name)) [
        | inr (found, there) ↦ ground (arith, there, held)
        | inl new ↦ elim (Option-cases (p.lookup_name keys old)) [
          | inl missing ↦ ground (arith, new, missing, held)
          | inr (legacy, there) ↦
              ground (arith, new, there, held, known-add_all name legacy keys key)
        ]
      ]

  module _ (root : Bool) (fs : Storage) (dial : Dial p) (r : SshRequest) where
    pub log_in-peer :
        (remote : Remote p) (c : Credential p) (keys : p.HostKeys) (client : Client p)
        → log_in p remote r c keys ≡ returns client
        → client.peer ≡ remote.host_key
    log_in-peer remote c keys client done = elim (Option-cases (remote.login r.username c)) [
      | inl good ↦ ground (arith, good, done)
      | inr (e, bad) ↦ absurd (ground (arith, bad, done))
    ]

    -- without trust on first use, a client has a key that it holds
    greet-reject :
        (remote : Remote p) (c : Credential p) (keys : p.HostKeys) (d : Disk) (client : Client p)
        → (greet p fs reject r remote c keys d).0 ≡ returns client
        → known p keys (host_pattern r.host r.port) client.peer ≡ true
    unfolding greet ask_policy
    greet-reject remote c keys d client done =
        elim (Check-cases (p.check keys r.host r.port remote.host_key)) [
          | inl new ↦ absurd (ground (arith, new, done))
          | inr (inl good) ↦
              let logged : log_in p remote r c keys ≡ returns client = ground (arith, good, done) in
              ap (known p keys (host_pattern r.host r.port))
                (log_in-peer remote c keys client logged)
              ∙ h.check-trusted keys r.host r.port remote.host_key good
          | inr (inr (k, bad)) ↦ absurd (ground (arith, bad, done))
        ]

    open_client-reject :
        (c : Credential p) (keys : p.HostKeys) (d : Disk) (client : Client p)
        → (open_client p fs dial r reject c keys d).0 ≡ returns client
        → known p keys (host_pattern r.host r.port) client.peer ≡ true
    unfolding open_client
    open_client-reject c keys d client done = elim (Outcome-cases (dial (address p r) r.port)) [
      | inr (e, down) ↦ absurd (ground (arith, down, done))
      | inl (remote, up) ↦ greet-reject remote c keys d client (ground (arith, up, done))
    ]

    -- What a connection that succeeds has gone through.
    pub connect_host-parts :
        (d : Disk) (made : p.HostKeys × Policy) (client : Client p)
        → new_client p r d ≡ returns made
        → (connect_host p root fs dial r d).0 ≡ returns client
        → (c : Credential p) × (open_client p fs dial r made.1 c (with_legacy p r made.0) d
            ≡ connect_host p root fs dial r d)
    unfolding connect_host
    connect_host-parts d made client good done = elim (Outcome-cases (credential p r)) [
      | inr (e, bad) ↦ absurd (ground (arith, good, bad, done))
      | inl (c, held) ↦ (c, ground (arith, good, held, done))
    ]

    -- A client of a host with a recorded key has shown a key that the record grants.
    pub connect_host-granted :
        (d : Disk) (text : Text) (client : Client p)
        → non_empty text ≡ true
        → Pinned (hostkey_path (ident r)) text d
        → (connect_host p root fs dial r d).0 ≡ returns client
        → granted p text r client.peer ≡ true
    connect_host-granted d text client full pinned done =
        let made = new_client-Pinned p r d text full pinned in
        let (c, same) = connect_host-parts d (p.load text p.no_keys, reject) client made done in
        with_legacy-granted text r client.peer (
          open_client-reject c (with_legacy p r (p.load text p.no_keys)) d client
            (ap (λ o. o.0) same ∙ done))
