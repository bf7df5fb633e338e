-- ===== src/Ssh/Connect.antt =====
-- The connection of backend/app/ssh_transport.py: `connect_host` with its policies, and the
-- replacement of a host key by one with an expected fingerprint.
pub mod Replace
use lab_gpu_server_monitor.Prelude.{
  ℕ, zero, suc, ◌+◌, Bool, true, false, not, ◌&&◌, ◌||◌, Option, none, some, List, [], ◌∷◌, ◌++◌,
  map, if◌then◌else◌, Text, codes, text_eq, nat_beq, leb, ◌==◌, all, length, starts_with, strip,
  non_empty,
}
use lab_gpu_server_monitor.Prelude.Table.{lookup, insert}
use lab_gpu_server_monitor.Prelude.Decimal.{decimal}
use lab_gpu_server_monitor.Ssh.{
  root_ssh_disabled_error, host_key_fingerprint_mismatch, ssh_exception, os_error, value_error,
  Outcome, returns, raises, trusted, changed, unknown, KeyClass, ed25519_key, ecdsa_key, rsa_key,
  Paramiko, Credential, by_pkey, by_password, Remote, Dial, host_pattern,
}
use lab_gpu_server_monitor.Ssh.HostKeys.{
  file, Disk, Storage, Run, failure, opened, under_lock, hostkey_path, has_recorded_key,
  tofu_pattern, payload, verify_recorded_key, missing_host_key, bad_host_key,
}

-- the arguments of `connect_host`
pub record SshRequest : Type 0 where
  pub host : Text
  pub port : ℕ
  pub username : Text
  pub secret : Text
  pub private_key : Text
  pub passphrase : Text
  pub server_key : Text
  pub connect_address : Text

-- what a Server row gives to `connect_server`, with its credentials decrypted_field
pub record Server : Type 0 where
  pub id : ℕ
  pub host : Text
  pub port : Option ℕ
  pub username : Text
  pub auth_type : Text
  pub password : Option Text
  pub private_key : Option Text
  pub passphrase : Option Text

-- `str.lower` of a code point of ASCII
abbrev pub lower_char : ℕ → ℕ
lower_char c = if leb 65 c && leb c 90 then c + 32 else c

-- what a client is given for a key that it does not have
pub data Policy : Type 0 where
  reject : Policy
  tofu : Text → Policy

-- a client that has logged in: the key that the server has shown
pub record Client (p : Paramiko) : Type 0 where
  pub peer : p.PKey
  pub keys : p.HostKeys

-- `server_key or f"{host}_{port}"`
abbrev pub ident : SshRequest → Text
ident r = if non_empty r.server_key then r.server_key else r.host ++ (codes "_" ++ decimal r.port)

abbrev pub is_root : Text → Bool
is_root name = map lower_char (strip name) == codes "root"

-- the loop over the keys of an older entry
module _ (p : Paramiko) where
  unfoldable pub add_all : Text → List (Text × p.PKey) → p.HostKeys → p.HostKeys
  add_all name [] keys = keys
  add_all name ((algorithm, key) ∷ rest) keys = add_all name rest (p.add keys name algorithm key)

  -- the pin of a resolved address, reused for its name
  unfoldable pub with_legacy : SshRequest → p.HostKeys → p.HostKeys
  with_legacy r keys =
      if non_empty r.connect_address && not (r.connect_address == r.host)
      then elim (p.lookup_name keys (host_pattern r.host r.port)) [
        | some _ ↦ keys
        | none ↦ elim (p.lookup_name keys (host_pattern r.connect_address r.port)) [
          | none ↦ keys
          | some legacy ↦ add_all (host_pattern r.host r.port) legacy keys
        ]
      ]
      else keys

  -- the keys and the policy of a new client
  unfoldable pub new_client : SshRequest → Disk → Outcome (p.HostKeys × Policy)
  new_client r d =
      if has_recorded_key (ident r) d
      then elim (opened (lookup (hostkey_path (ident r)) d)) [
        | returns text ↦ returns (p.load text p.no_keys, reject)
        | raises e ↦ raises e
      ]
      else elim (tofu_pattern r.host r.port) [
        | returns pattern ↦ returns (p.no_keys, tofu pattern)
        | raises e ↦ raises e
      ]

  -- `load_pkey`: the classes in turn
  unfoldable pub load_first : Text → Option Text → List KeyClass → Outcome p.Identity
  load_first text phrase [] = raises (failure value_error (codes "Cannot load private key"))
  load_first text phrase (c ∷ classes) = elim (p.from_private_key c text phrase) [
    | returns key ↦ returns key
    | raises _ ↦ load_first text phrase classes
  ]

  abbrev pub load_pkey : Text → Text → Outcome p.Identity
  load_pkey text passphrase =
      load_first text (if non_empty passphrase then some passphrase else none)
        (ed25519_key ∷ ecdsa_key ∷ rsa_key ∷ [])

  unfoldable pub credential : SshRequest → Outcome (Credential p)
  credential r =
      if non_empty r.private_key
      then elim (load_pkey r.private_key r.passphrase) [
        | returns key ↦ returns (by_pkey key)
        | raises e ↦ raises e
      ]
      else returns (by_password r.secret)

  -- the end of `client.connect`, with the server's key accepted
  abbrev pub log_in : Remote p → SshRequest → Credential p → p.HostKeys → Outcome (Client p)
  log_in remote r c keys = elim (remote.login r.username c) [
    | none ↦ returns (record { peer = remote.host_key; keys = keys })
    | some e ↦ raises e
  ]

  -- `policy.missing_host_key`
  unfoldable pub ask_policy :
      Storage → Policy → SshRequest → Remote p → Credential p → p.HostKeys → Disk → Run (Client p)
  ask_policy fs reject r remote c keys d =
      (raises (failure ssh_exception (p.reject_text (host_pattern r.host r.port))), d)
  ask_policy fs (tofu pattern) r remote c keys d =
      let result =
        missing_host_key p fs (hostkey_path (ident r)) pattern (host_pattern r.host r.port)
          remote.host_key keys d in
      (elim result.0 [ returns more ↦ log_in remote r c more | raises e ↦ raises e ], result.1)

  -- `client.connect` with a server that has answered
  unfoldable pub greet :
      Storage → Policy → SshRequest → Remote p → Credential p → p.HostKeys → Disk → Run (Client p)
  greet fs policy r remote c keys d = elim (p.check keys r.host r.port remote.host_key) [
    | trusted ↦ (log_in remote r c keys, d)
    | changed expected ↦
        (raises (bad_host_key p (host_pattern r.host r.port) remote.host_key expected), d)
    | unknown ↦ ask_policy fs policy r remote c keys d
  ]

  -- the address of the socket
  abbrev pub address : SshRequest → Text
  address r = if non_empty r.connect_address then r.connect_address else r.host

  -- the socket and the connection of a client that is set up
  unfoldable pub open_client :
      Storage → Dial p → SshRequest → Policy → Credential p → p.HostKeys → Disk → Run (Client p)
  open_client fs dial r policy c keys d = elim (dial (address r) r.port) [
    | raises e ↦ (raises e, d)
    | returns remote ↦ greet fs policy r remote c keys d
  ]

  unfoldable pub connect_host : Bool → Storage → Dial p → SshRequest → Disk → Run (Client p)
  connect_host allow_root_ssh fs dial r d =
      if is_root r.username && not allow_root_ssh
      then (
        raises (
            failure root_ssh_disabled_error
              (codes "root SSH is disabled; use a dedicated least-privilege gpumon account")),
        d,
      )
      else elim (new_client r d) [
        | raises e ↦ (raises e, d)
        | returns made ↦ elim (credential r) [
          | raises e ↦ (raises e, d)
          | returns c ↦ open_client fs dial r made.1 c (with_legacy r made.0) d
        ]
      ]

-- `decrypt_text(value or "")`, where the way of logging in asks for it
abbrev pub decrypted_field : (Text → Outcome Text) → Bool → Option Text → Outcome Text
decrypted_field decrypt false value = returns []
decrypted_field decrypt true value = decrypt (elim value [ none ↦ [] | some text ↦ text ])

-- `decrypt_creds`, which is also how `connect_server` reads them
unfoldable pub decrypt_creds : (Text → Outcome Text) → Server → Outcome (Text × (Text × Text))
decrypt_creds decrypt s =
    elim (decrypted_field decrypt (s.auth_type == codes "password") s.password) [
      | raises e ↦ raises e
      | returns secret ↦ elim (decrypted_field decrypt (s.auth_type == codes "key") s.private_key) [
        | raises e ↦ raises e
        | returns key ↦ elim (decrypted_field decrypt (s.auth_type == codes "key") s.passphrase) [
          | raises e ↦ raises e
          | returns phrase ↦ returns (secret, (key, phrase))
        ]
      ]
    ]

-- the call that `connect_server` makes
abbrev pub request_of : Server → Text × (Text × Text) → SshRequest
request_of s creds = record {
  host = s.host;
  port = elim s.port [ none ↦ 22 | some n ↦ if nat_beq n 0 then 22 else n ];
  username = s.username;
  secret = creds.0;
  private_key = creds.1.0;
  passphrase = creds.1.1;
  server_key = codes "server_" ++ decimal s.id;
  connect_address = [];
}

module _ (p : Paramiko) where
  unfoldable pub connect_server :
      Bool → Storage → Dial p → (Text → Outcome Text) → Server → Disk → Run (Client p)
  connect_server allow_root_ssh fs dial decrypt s d = elim (decrypt_creds decrypt s) [
    | raises e ↦ (raises e, d)
    | returns creds ↦ connect_host p allow_root_ssh fs dial (request_of s creds) d
  ]
