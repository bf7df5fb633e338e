-- ===== src/Ssh/Tests.antt =====
-- Runs of the SSH transport of backend/app/ssh_transport.py, with a small set of host keys.
use lab_gpu_server_monitor.Prelude.{
  text_beq, lstrip, starts_with, ℕ, ◌≡◌, refl, true, Option, some, List, [], ◌∷◌, Text, codes,
  text_eq, split_on, strip,
}
use lab_gpu_server_monitor.Prelude.Decimal.{decimal, digits}
use lab_gpu_server_monitor.Ssh.{Outcome, returns, host_pattern}
use lab_gpu_server_monitor.Ssh.HostKeys.{
  under_lock, ensure_hostkey_storage_locked, sweep, forget_hostkey, tofu_pattern, record_key,
  first_use, publish, verify_recorded_key, file, Disk, hostkey_path, missing_host_key,
}
use lab_gpu_server_monitor.Ssh.Connect.{
  new_client, credential, open_client, greet, ask_policy, with_legacy, SshRequest, Client,
  connect_host,
}
use lab_gpu_server_monitor.Ssh.Connect.Replace.{
  validate_expected_fingerprint, rstrip_equals, pin_if_expected, pin,
  replace_hostkey_with_expected_fingerprint,
}
use lab_gpu_server_monitor.Ssh.Faults.{classify_ssh_error}
use lab_gpu_server_monitor.Ssh.Known.{granted}
use lab_gpu_server_monitor.Ssh.FirstUse.{Learnt, connect_host-Learnt}
use lab_gpu_server_monitor.Ssh.Pins.{
  Call, connects, forgets, serve_all, connect_host-granted_forever, Holds,
  replace_hostkey_with_expected_fingerprint-Holds, hostkey_path-inj,
}
use lab_gpu_server_monitor.Ssh.Fixtures.{under, toy, toy-IsClient, sound, shows}

abbrev request : SshRequest
request = record {
  host = codes "gpu";
  port = 22;
  username = codes "mon";
  secret = codes "pw";
  private_key = [];
  passphrase = [];
  server_key = codes "server_1";
  connect_address = [];
}

abbrev line : Text
line = codes "gpu ed K1\n"

abbrev disk : Disk
disk = (codes "server_1.keys", file line) ∷ []

abbrev meanwhile : List (Call toy)
meanwhile = connects true sound (shows (codes "K2")) request ∷ forgets sound (codes "server_2") ∷ []

abbrev client : Client toy
client = record { peer = codes "K1"; keys = (codes "gpu", (codes "ed", codes "K1")) ∷ [] }

abbrev fingerprint : Text
fingerprint = codes "SHA256:AAAAAAAAAAAAAAAAAAAAAAAAAAAAAAAAAAAAAAAAAAA"

program : Unit {0}
unfolding connect_host text_beq strip split_on starts_with new_client credential open_client greet
    ask_policy missing_host_key record_key first_use publish verify_recorded_key with_legacy
    under_lock ensure_hostkey_storage_locked sweep hostkey_path forget_hostkey under tofu_pattern
    classify_ssh_error replace_hostkey_with_expected_fingerprint validate_expected_fingerprint
    rstrip_equals pin_if_expected pin lstrip decimal digits
program = tt

again :
    connect_host toy true sound (shows (codes "K1")) request (serve_all toy meanwhile disk)
    ≡ (returns client, disk)
unfolding program
again = refl

connect_host-granted_forever_example : granted toy line request (codes "K1") ≡ true
unfolding program
connect_host-granted_forever_example =
    connect_host-granted_forever toy toy-IsClient meanwhile disk line true sound
      (shows (codes "K1")) request client refl refl refl refl refl

learnt : connect_host toy true sound (shows (codes "K2")) request [] ≡ (
  returns (record { peer = codes "K2"; keys = (codes "gpu", (codes "ed", codes "K2")) ∷ [] }),
  (codes "server_1.keys", file (codes "gpu ed K2\n")) ∷ [],
)
unfolding program
learnt = refl

connect_host-Learnt_example :
    Learnt toy request client (connect_host toy true sound (shows (codes "K1")) request []).1
unfolding program
connect_host-Learnt_example =
    connect_host-Learnt toy toy-IsClient true sound (shows (codes "K1")) request [] client refl refl

-- 32 bytes, from any text
abbrev decodes : Text → Option Text
decodes text = some (codes "01234567890123456789012345678901")

abbrev fetches : Text → ℕ → Outcome Text
fetches host port = returns (codes "K2")

replaced :
    (replace_hostkey_with_expected_fingerprint toy decodes sound fetches
      (codes "gpu")
      22
      (codes "server_1")
      fingerprint
      disk)
    ≡ (returns fingerprint, (codes "server_1.keys", file (codes "gpu ed K2\n")) ∷ [])
unfolding program
replaced = refl

replace_hostkey_with_expected_fingerprint-Holds_example :
    (key : Text) × (fetches (codes "gpu") 22 ≡ returns key)
    × (rstrip_equals (toy.fingerprint key) ≡ rstrip_equals (strip fingerprint))
    × Holds toy
        (hostkey_path (codes "server_1"))
        (host_pattern (codes "gpu") 22)
        key
        (replace_hostkey_with_expected_fingerprint toy decodes sound fetches
          (codes "gpu")
          22
          (codes "server_1")
          fingerprint
          disk).1
unfolding program
replace_hostkey_with_expected_fingerprint-Holds_example =
    replace_hostkey_with_expected_fingerprint-Holds toy decodes sound fetches (codes "gpu") 22
      (codes "server_1") fingerprint fingerprint disk refl

abbrev third : ℕ
third = 3

hostkey_path-inj_example : third ≡ 3
hostkey_path-inj_example = hostkey_path-inj third 3 refl
