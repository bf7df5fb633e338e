-- ===== src/Ssh/Fixtures.antt =====
-- A small set of host keys for the tests, and servers that let everyone in.
use mathlib.Core.Path.{subst}
use lab_gpu_server_monitor.Prelude.{
  ◌≡◌, refl, ◌⊎◌, inl, inr, Bool, true, false, ◌&&◌, Option, none, some, List, [], ◌∷◌, ◌++◌,
  if◌then◌else◌, Text, codes, text_eq, ◌==◌, any, arith, Bool-cases, beq_refl, split_on, strip,
}
use lab_gpu_server_monitor.Ssh.{
  returns, Check, trusted, changed, unknown, Paramiko, Dial, host_pattern, listed, IsClient,
}
use lab_gpu_server_monitor.Ssh.HostKeys.{Storage}

abbrev pub Keys : Type 0
Keys = List (Text × (Text × Text))

abbrev fields : List Text → Keys
fields (name ∷ algorithm ∷ key ∷ []) = (name, (algorithm, key)) ∷ []
fields _ = []

unfoldable pub under : Text → Keys → List (Text × Text)
under name [] = []
under name ((other, entry) ∷ keys) =
    let rest = under name keys in if other == name then entry ∷ rest else rest

abbrev found : List (Text × Text) → Option (List (Text × Text))
found [] = none
found (e ∷ es) = some (e ∷ es)

abbrev among : Text → Option (List (Text × Text)) → Bool
among key none = false
among key (some keys) = any (λ b. (b.0 == codes "ed") && (b.1 == key)) keys

abbrev compared : Text → Option (List (Text × Text)) → Check Text
compared key none = unknown
compared key (some keys) = if among key (some keys) then trusted else changed key

-- keys by their bytes, all of one algorithm; a file of one line
abbrev pub toy : Paramiko
toy = record {
  PKey = Text;
  get_name = λ k. codes "ed";
  get_base64 = λ k. k;
  asbytes = λ k. k;
  fingerprint = λ k. codes "SHA256:AAAAAAAAAAAAAAAAAAAAAAAAAAAAAAAAAAAAAAAAAAA=";
  HostKeys = Keys;
  no_keys = [];
  load = λ text keys. fields (split_on 32 (strip text)) ++ keys;
  lookup_name = λ keys name. found (under name keys);
  add = λ keys name algorithm key. (name, (algorithm, key)) ∷ keys;
  check = λ keys host port key. compared key (found (under (host_pattern host port) keys));
  bad_host_key_text = λ name key old. codes "changed";
  reject_text = λ name. codes "unknown";
  Identity = Text;
  from_private_key = λ class text phrase. returns text;
}

compared-trusted :
    (key : Text) (o : Option (List (Text × Text))) → compared key o ≡ trusted → among key o ≡ true
compared-trusted key none h = absurd cc
compared-trusted key (some keys) h = elim (Bool-cases (among key (some keys))) [
  | inl good ↦ good
  | inr bad ↦ absurd (ground (arith, bad, h))
]

one_of-added :
    (algorithm new key : Text) (rest : List (Text × Text))
    → among key (found ((algorithm, new) ∷ rest)) ≡ true
    → (among key (found rest) ≡ true) ⊎ (listed toy key ((algorithm, new) ∷ []) ≡ true)
one_of-added algorithm new key [] h = inr h
one_of-added algorithm new key (e ∷ rest) h =
    elim (Bool-cases ((algorithm == codes "ed") && (new == key))) [
      | inl here ↦ inr (ground (arith, here))
      | inr other ↦ inl (ground (arith, other, h))
    ]

pub toy-IsClient : IsClient toy
unfolding under
toy-IsClient = record {
  check-trusted =
      λ keys host port key h. compared-trusted key (found (under (host_pattern host port) keys)) h;
  lookup-no_keys = λ name. refl;
  known-add = λ keys name algorithm new key h. one_of-added algorithm new key (under name keys) (
      subst
        (λ (b : Bool).
          among key (found (if b then (algorithm, new) ∷ under name keys else under name keys))
          ≡ true)
        (beq_refl name) h);
}

abbrev pub sound : Storage
sound = record { locks = true; probes = true; writes = true; syncs = true; rival = none }

-- a server that shows a key and lets everyone in
abbrev pub shows : Text → Dial toy
shows key address port = returns (record { host_key = key; login = λ name c. none })
