-- ===== src/Ssh/HostKeys.antt =====
-- The directory of host keys of backend/app/ssh_transport.py: its storage check, the policy of trust
-- on first use, and the reset of a key. A disk is the directory's entries by name; the lock file
-- `.hostkey.lock`, which is opened without following links, is not among them.
use lab_gpu_server_monitor.Prelude.{
  ℕ, Bool, true, false, not, ◌&&◌, ◌||◌, Option, none, some, List, [], ◌∷◌, ◌++◌, map,
  if◌then◌else◌, Text, codes, text_eq, nat_beq, ltb, leb, ◌==◌, any, starts_with, non_empty,
  is_space,
}
use lab_gpu_server_monitor.Prelude.Table.{lookup, contains, insert, erase}
use lab_gpu_server_monitor.Ssh.{
  Kind, bad_host_key_exception, ssh_exception, os_error, runtime_error, value_error, Exception,
  Outcome, returns, raises, Paramiko, host_pattern,
}

-- a regular file, a symbolic link to a file or to nothing, a directory
pub data Entry : Type 0 where
  file : Text → Entry
  link : Option Text → Entry
  folder : Entry

abbrev pub Disk : Type 0
Disk = List (Text × Entry)

-- how the file system answers during a call, and what another process publishes under the name
-- between the test and `os.link`
pub record Storage : Type 0 where
  pub locks : Bool
  pub probes : Bool
  pub writes : Bool
  pub syncs : Bool
  pub rival : Option Text

abbrev pub Run : Type 0 → Type 0
Run A = Outcome A × Disk

abbrev pub failure : Kind → Text → Exception
failure k text = record { kind = k; message = text }

-- `open(path)` and `os.path.getsize(path) > 0`
abbrev pub opened : Option Entry → Outcome Text
opened (some (file text)) = returns text
opened (some (link (some text))) = returns text
opened (some (link none)) = raises (failure os_error (codes "no such file"))
opened (some folder) = raises (failure os_error (codes "is a directory"))
opened none = raises (failure os_error (codes "no such file"))

abbrev pub has_size : Option Entry → Bool
has_size (some (file text)) = non_empty text
has_size (some (link (some text))) = non_empty text
has_size (some (link none)) = false
has_size (some folder) = true
has_size none = false

-- the loop over `os.scandir`: leftovers are removed, and the first unsafe entry ends it
unfoldable pub sweep : Disk → Option Text × Disk
sweep [] = (none, [])
sweep ((name, e) ∷ d) =
    let rest = sweep d in
    if starts_with (codes ".hostkey-") name
    then elim e [ folder ↦ (rest.0, (name, folder) ∷ rest.1) | _ ↦ rest ]
    else elim e [
      | file text ↦ (rest.0, (name, file text) ∷ rest.1)
      | link to ↦ (some name, (name, link to) ∷ d)
      | folder ↦ (some name, (name, folder) ∷ d)
    ]

-- the whole check, with its probe
unfoldable pub ensure_hostkey_storage_locked : Storage → Disk → Run Unit
ensure_hostkey_storage_locked fs d =
    let swept = sweep d in
    elim swept.0 [
      | some name ↦ (
        raises (failure runtime_error (codes "unsafe entry in host-key directory: " ++ name)),
        swept.1,
      )
      | none ↦
          if fs.probes
          then (returns tt, swept.1)
          else (raises (failure os_error (codes "write test")), swept.1)
    ]

-- what is done under `_hostkey_process_lock`, after the storage check
unfoldable pub under_lock : {A : Type 0} → Storage → Disk → (Disk → Run A) → Run A
under_lock fs d body =
    if fs.locks
    then (let ready = ensure_hostkey_storage_locked fs d in
        elim ready.0 [ returns _ ↦ body ready.1 | raises e ↦ (raises e, ready.1) ])
    else (raises (failure runtime_error (codes "host-key path is not a real directory")), d)

-- `re.sub(r"[^A-Za-z0-9_.-]", "_", …)`
abbrev pub safe_char : ℕ → ℕ
safe_char c =
    if leb 65 c && leb c 90
      || leb 97 c && leb c 122
      || leb 48 c && leb c 57
      || nat_beq c 95
      || nat_beq c 46
      || nat_beq c 45
    then c
    else 95

-- `hostkey_path(server_key)`, in the directory
unfoldable pub hostkey_path : Text → Text
hostkey_path key = map safe_char key ++ codes ".keys"

abbrev pub has_recorded_key : Text → Disk → Bool
has_recorded_key key d = has_size (lookup (hostkey_path key) d)

unfoldable pub forget_hostkey : Storage → Text → Disk → Run Bool
forget_hostkey fs key d = under_lock fs d (λ ready.
    if contains (hostkey_path key) ready
    then (if fs.syncs
        then (returns true, erase (hostkey_path key) ready)
        else (raises (failure os_error (codes "fsync")), erase (hostkey_path key) ready))
    else (returns false, ready))

-- a character of a host that the policy's `__init__` refuses
abbrev pub refused_char : ℕ → Bool
refused_char c = is_space c || ltb c 33 || nat_beq c 127

-- `_TofuPolicy.__init__`: the pattern
unfoldable pub tofu_pattern : Text → ℕ → Outcome Text
tofu_pattern host port =
    if not (non_empty host) || any refused_char host
    then raises (failure value_error (codes "SSH host contains whitespace or control characters"))
    else returns (host_pattern host port)

module _ (p : Paramiko) where
  -- `matched.get(name)`, where there is a match
  abbrev pub expected_key : Option (List (Text × p.PKey)) → p.PKey → Option p.PKey
  expected_key none key = none
  expected_key (some found) key = lookup (p.get_name key) found

  -- the key that is named in the exception
  abbrev pub shown_key : Option (List (Text × p.PKey)) → p.PKey → p.PKey
  shown_key none key = key
  shown_key (some []) key = key
  shown_key (some ((_, first) ∷ _)) key = first

  abbrev pub bad_host_key : Text → p.PKey → p.PKey → Exception
  bad_host_key hostname key expected =
      failure bad_host_key_exception (p.bad_host_key_text hostname key expected)

  -- `_verify_recorded_key` of a file's text
  unfoldable pub verify_recorded_key : Text → Text → Text → p.PKey → Outcome Unit
  verify_recorded_key text pattern hostname key =
      let matched = p.lookup_name (p.load text p.no_keys) pattern in
      elim (expected_key matched key) [
        | none ↦ raises (bad_host_key hostname key (shown_key matched key))
        | some expected ↦
            if p.asbytes expected == p.asbytes key
            then returns tt
            else raises (bad_host_key hostname key expected)
      ]

  -- the line that is written for a key
  abbrev pub payload : Text → p.PKey → Text
  payload pattern key =
      pattern ++ (codes " " ++ (p.get_name key ++ (codes " " ++ (p.get_base64 key ++ codes "\n"))))

  -- what is found under the path, verified
  abbrev pub verified : Text → Text → p.PKey → Text → Disk → Run Unit
  verified pattern hostname key text d = (verify_recorded_key text pattern hostname key, d)

  -- `os.link`, which overwrites nothing, and the sync after it
  unfoldable pub publish : Storage → Text → Text → Text → p.PKey → Disk → Run Unit
  publish fs path pattern hostname key d = elim fs.rival [
    | some text ↦
        let result = verify_recorded_key text pattern hostname key in
        let left = insert path (file text) d in
        (
          elim result [
            | raises e ↦ raises e
            | returns _ ↦ if fs.syncs then returns tt else raises (failure os_error (codes "fsync"))
          ],
          left,
        )
    | none ↦
        let left = insert path (file (payload pattern key)) d in
        (if fs.syncs then returns tt else raises (failure os_error (codes "fsync")), left)
  ]

  -- the first key of a host: written aside, read back, published
  unfoldable pub first_use : Storage → Text → Text → Text → p.PKey → Disk → Run Unit
  first_use fs path pattern hostname key d =
      if fs.writes
      then elim (verify_recorded_key (payload pattern key) pattern hostname key) [
        | raises e ↦ (raises e, d)
        | returns _ ↦ publish fs path pattern hostname key d
      ]
      else (raises (failure os_error (codes "short write while persisting SSH host key")), d)

  -- the body of `missing_host_key` under the lock
  unfoldable pub record_key : Storage → Text → Text → Text → p.PKey → Disk → Run Unit
  record_key fs path pattern hostname key d = elim (lookup path d) [
    | none ↦ first_use fs path pattern hostname key d
    | some e ↦ elim (opened (some e)) [
      | returns text ↦ verified pattern hostname key text d
      | raises err ↦ (raises err, d)
    ]
  ]

  -- `except`: a changed key is passed on, all else is an SSH exception
  abbrev pub wrapped : Text → Exception → Exception
  wrapped hostname e = elim e.kind [
    | bad_host_key_exception ↦ e
    | _ ↦
        failure ssh_exception
          (codes "refusing SSH connection: cannot persist host key for " ++ hostname)
  ]

  unfoldable pub missing_host_key :
      Storage → Text → Text → Text → p.PKey → p.HostKeys → Disk → Run p.HostKeys
  missing_host_key fs path pattern hostname key keys d =
      let result = under_lock fs d (record_key fs path pattern hostname key) in
      (
        elim result.0 [
          | returns _ ↦ returns (p.add keys pattern (p.get_name key) key)
          | raises e ↦ raises (wrapped hostname e)
        ],
        result.1,
      )
