-- ===== src/Collector/Fast/Poll.antt =====
-- `collect` of backend/app/ssh_collector.py, over the SSH transport.
use lab_gpu_server_monitor.Prelude.{
  ℕ, Bool, true, false, [], ◌++◌, if◌then◌else◌, Text, codes, text_eq, strip, non_empty,
}
use lab_gpu_server_monitor.Prelude.Decimal.{decimal}
use lab_gpu_server_monitor.Ssh.{Exception, Outcome, returns, raises, Paramiko, Dial}
use lab_gpu_server_monitor.Ssh.HostKeys.{Disk, Storage, Run}
use lab_gpu_server_monitor.Ssh.Connect.{SshRequest, Client, connect_host}
use lab_gpu_server_monitor.Ssh.Faults.{classify_ssh_error}
use lab_gpu_server_monitor.Collector.Fast.{Tools, PollMetrics, blank, parse_fast_output}

-- what `collect` returns, but for its times
pub record MetricResult (F : Type 0) : Type 0 where
  pub ok : Bool
  pub error : Text
  pub error_code : Text
  pub metrics : PollMetrics F

-- a result that failed with what it holds
abbrev pub failed : {F : Type 0} → Text → Text → PollMetrics F → MetricResult F
failed code text m = record { ok = false; error = text; error_code = code; metrics = m }

-- the arguments of `collect`, with what is stored of the credentials
pub record Target : Type 0 where
  pub host : Text
  pub port : ℕ
  pub username : Text
  pub password_enc : Text
  pub private_key_enc : Text
  pub passphrase_enc : Text
  pub server_key : Text

-- `connect_host(…, server_key=server_key or f"{host}_{port}")`
abbrev pub polled : Target → Text → Text → Text → SshRequest
polled g secret key phrase = record {
  host = g.host;
  port = g.port;
  username = g.username;
  secret = secret;
  private_key = key;
  passphrase = phrase;
  server_key =
      if non_empty g.server_key then g.server_key else g.host ++ (codes "_" ++ decimal g.port);
  connect_address = [];
}

module _ {F : Type 0} (t : Tools F) where
  -- the output of the script, with its exit status
  unfoldable pub judge_output : Target → Text → Text → MetricResult F
  judge_output g code out =
      if non_empty (strip out)
      then (let (whole, m) = parse_fast_output t out g.host in
          if whole
          then record { ok = true; error = []; error_code = codes "OK"; metrics = m }
          else failed (codes "COLLECT_FAILED") (codes "remote collector output could not be parsed")
              m)
      else failed (codes "COLLECT_FAILED")
          (codes "remote collector returned no usable output (exit " ++ (code ++ codes ")"))
          (blank t)

-- `run_script` of a client: the exit status in decimal, and the output
abbrev pub Script : Paramiko → Type 0
Script p = Client p → Outcome (Text × Text)

module _ {F : Type 0} (t : Tools F) where
  abbrev pub shown_fault : ℕ → Exception → MetricResult F
  shown_fault timeout e =
      failed (classify_ssh_error timeout e).0 (classify_ssh_error timeout e).1 (blank t)

module _ (p : Paramiko) where
  unfoldable pub connect_target :
      (Text → Outcome Text) → Bool → Storage → Dial p → Target → Disk → Run (Client p)
  connect_target decrypt root fs dial g d = elim (decrypt g.password_enc) [
    | raises e ↦ (raises e, d)
    | returns secret ↦ elim (decrypt g.private_key_enc) [
      | raises e ↦ (raises e, d)
      | returns key ↦ elim (decrypt g.passphrase_enc) [
        | raises e ↦ (raises e, d)
        | returns phrase ↦ connect_host p root fs dial (polled g secret key phrase) d
      ]
    ]
  ]

module _ {F : Type 0} (t : Tools F) (p : Paramiko) where
  unfoldable pub run_target : ℕ → Script p → Target → Outcome (Client p) → MetricResult F
  run_target timeout script g connection = elim connection [
    | raises e ↦ shown_fault t timeout e
    | returns client ↦ elim (script client) [
      | raises e ↦ shown_fault t timeout e
      | returns ran ↦ judge_output t g ran.0 ran.1
    ]
  ]

  unfoldable pub collect :
      (Text → Outcome Text)
      → Bool
      → Storage
      → Dial p
      → ℕ
      → Script p
      → Target
      → Disk
      → MetricResult F × Disk
  collect decrypt root fs dial timeout script g d =
      let connection = connect_target p decrypt root fs dial g d in
      (run_target timeout script g connection.0, connection.1)
