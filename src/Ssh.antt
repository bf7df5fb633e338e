-- ===== src/Ssh.antt =====
-- The SSH transport of backend/app/ssh_transport.py: what it raises, and what it takes from paramiko,
-- from base64, from the network and from the file system.
pub mod HostKeys
pub mod Connect
pub mod Faults
pub mod Trust
pub mod Known
pub mod FirstUse
pub mod Pins
pub mod Fixtures
mod Tests
use lab_gpu_server_monitor.Prelude.{
  ℕ, ◌≡◌, refl, inl, inr, ◌⊎◌, Bool, true, false, ◌&&◌, Option, none, some, List, [], ◌∷◌, ◌++◌,
  if◌then◌else◌, Text, codes, text_eq, ◌==◌, any, nat_beq,
}
use lab_gpu_server_monitor.Prelude.Decimal.{decimal}

-- the classes that the transport tells apart
pub data Kind : Type 0 where
  credential_decryption_error : Kind
  root_ssh_disabled_error : Kind
  host_key_fingerprint_mismatch : Kind
  authentication_exception : Kind
  bad_host_key_exception : Kind
  ssh_exception : Kind
  gaierror : Kind
  connection_refused_error : Kind
  timeout_error : Kind
  os_error : Kind
  runtime_error : Kind
  value_error : Kind
  other_error : Kind

-- an exception, with `str(e)`
pub record Exception : Type 0 where
  pub kind : Kind
  pub message : Text

pub data Outcome (A : Type 0) : Type 0 where
  returns : A → Outcome A
  raises : Exception → Outcome A

-- what `client.connect` finds of the server's key among the client's
pub data Check (K : Type 0) : Type 0 where
  trusted : Check K
  changed : K → Check K
  unknown : Check K

pub data KeyClass : Type 0 where
  ed25519_key : KeyClass
  ecdsa_key : KeyClass
  rsa_key : KeyClass

-- paramiko
pub record Paramiko : Type 1 where
  pub PKey : Type 0
  pub get_name : PKey → Text
  pub get_base64 : PKey → Text
  pub asbytes : PKey → Text
  pub fingerprint : PKey → Text
  -- the keys of a client, and those of a file's text added to them
  pub HostKeys : Type 0
  pub no_keys : HostKeys
  pub load : Text → HostKeys → HostKeys
  pub lookup_name : HostKeys → Text → Option (List (Text × PKey))
  pub add : HostKeys → Text → Text → PKey → HostKeys
  -- the comparison that `client.connect` makes for a host and a port
  pub check : HostKeys → Text → ℕ → PKey → Check PKey
  -- `str` of a `BadHostKeyException`, and what `RejectPolicy` says
  pub bad_host_key_text : Text → PKey → PKey → Text
  pub reject_text : Text → Text
  -- a private key, with its passphrase
  pub Identity : Type 0
  pub from_private_key : KeyClass → Text → Option Text → Outcome Identity

-- what a client logs in with
pub data Credential (p : Paramiko) : Type 0 where
  by_pkey : p.Identity → Credential p
  by_password : Text → Credential p

-- a server: the key that it shows, and its answer to a login
pub record Remote (p : Paramiko) : Type 0 where
  pub host_key : p.PKey
  pub login : Text → Credential p → Option Exception

-- the network at the time of a call, by address and port
abbrev pub Dial : Paramiko → Type 0
Dial p = Text → ℕ → Outcome (Remote p)

-- `host if port == 22 else f"[{host}]:{port}"`
abbrev pub host_pattern : Text → ℕ → Text
host_pattern host port =
    if nat_beq port 22 then host else codes "[" ++ (host ++ (codes "]:" ++ decimal port))

module _ (p : Paramiko) where
  -- a key with the name and the bytes of one in a list
  abbrev pub listed : p.PKey → List (Text × p.PKey) → Bool
  listed key keys = any (λ b. (b.0 == p.get_name key) && (p.asbytes b.1 == p.asbytes key)) keys

  -- a key that some host keys have under a name
  abbrev pub known : p.HostKeys → Text → p.PKey → Bool
  known keys name key = elim (p.lookup_name keys name) [
    | none ↦ false
    | some found ↦ listed key found
  ]

-- what the transport relies on: a client goes on with a server by itself only for a key that it has
-- under the server's name, a new client has no keys, and `add` adds no other key than the one given
pub record IsClient (p : Paramiko) : Type 0 where
  pub check-trusted :
      (keys : p.HostKeys) (host : Text) (port : ℕ) (key : p.PKey)
      → p.check keys host port key ≡ trusted
      → known p keys (host_pattern host port) key ≡ true
  pub lookup-no_keys : (name : Text) → p.lookup_name p.no_keys name ≡ none
  pub known-add :
      (keys : p.HostKeys) (name algorithm : Text) (new key : p.PKey)
      → known p (p.add keys name algorithm new) name key ≡ true
      → (known p keys name key ≡ true) ⊎ (listed p key ((algorithm, new) ∷ []) ≡ true)

pub Outcome-cases :
    {A : Type 0} (o : Outcome A) → ((a : A) × (o ≡ returns a)) ⊎ ((e : Exception) × (o ≡ raises e))
Outcome-cases (returns a) = inl (a, refl)
Outcome-cases (raises e) = inr (e, refl)

pub Check-cases :
    {K : Type 0} (c : Check K) → (c ≡ unknown) ⊎ ((c ≡ trusted) ⊎ ((k : K) × (c ≡ changed k)))
Check-cases unknown = inl refl
Check-cases trusted = inr (inl refl)
Check-cases (changed k) = inr (inr (k, refl))
