-- ===== src/Collector/Disks.antt =====
-- The file systems of a poll, in backend/app/ssh_collector.py: `_parse_df` and `_parse_dfi`.
pub mod Unique
use lab_gpu_server_monitor.Prelude.{
  ℕ, zero, suc, ◌≡◌, Bool, true, false, not, ◌&&◌, ◌||◌, Option, none, some, List, [], ◌∷◌, ◌++◌,
  map, if◌then◌else◌, Text, codes, text_eq, nat_beq, ltb, ◌==◌, any, keep, length, starts_with,
  strip, non_empty,
}
use lab_gpu_server_monitor.Prelude.Int.{ℤ}
use lab_gpu_server_monitor.Collector.{splitlines, words_max, part}
use lab_gpu_server_monitor.Collector.Processes.{
  Numbers, Whole, whole, not_a_number, too_large, to_float, but_first,
}

pub record DiskUse (F : Type 0) : Type 0 where
  pub mount : Text
  pub device : Text
  pub total_gb : F
  pub used_gb : F
  pub percent : F

pub record InodeUse (F : Type 0) : Type 0 where
  pub mount : Text
  pub inodes_total : ℤ
  pub inodes_used : ℤ
  pub inodes_percent : F

-- `_PSEUDO_FS.match(fs)`
abbrev pub is_pseudo : Text → Bool
is_pseudo fs =
    any (λ p. starts_with p fs)
      (codes "tmpfs"
        ∷ codes "devtmpfs"
        ∷ codes "squashfs"
        ∷ codes "udev"
        ∷ codes "none"
        ∷ codes "shm"
        ∷ codes "loop"
        ∷ codes "nsfs"
        ∷ codes "tracefs"
        ∷ codes "debugfs"
        ∷ codes "configfs"
        ∷ codes "fusectl"
        ∷ codes "fuse."
        ∷ codes "hugetlbfs"
        ∷ codes "mqueue"
        ∷ codes "pstore"
        ∷ codes "securityfs"
        ∷ codes "bpf"
        ∷ codes "cgroup"
        ∷ codes "autofs"
        ∷ codes "efivarfs"
        ∷ codes "binfmt_misc"
        ∷ codes "rpc_"
        ∷ [])

-- `[line for line in text.splitlines() if line.strip()]`
abbrev pub filled_lines : Text → List Text
filled_lines text = keep (λ line. non_empty (strip line)) (splitlines text)

-- `s < t`
unfoldable pub text_ltb : Text → Text → Bool
text_ltb [] [] = false
text_ltb [] (d ∷ t) = true
text_ltb (c ∷ s) [] = false
text_ltb (c ∷ s) (d ∷ t) = ltb c d || nat_beq c d && text_ltb s t

-- a stable sort by a key
module _ {A : Type 0} (key : A → Text) where
  unfoldable pub put_sorted : A → List A → List A
  put_sorted x [] = x ∷ []
  put_sorted x (y ∷ ys) =
      let rest = put_sorted x ys in if text_ltb (key y) (key x) then y ∷ rest else x ∷ y ∷ ys

  unfoldable pub sort_by : List A → List A
  sort_by [] = []
  sort_by (x ∷ xs) = put_sorted x (sort_by xs)

module _ {F : Type 0} (n : Numbers F) where
  abbrev pub kb_in_gb : Text → F
  kb_in_gb v =
      n.floats.over (n.floats.over (to_float n v) (n.floats.of_int 1024)) (n.floats.of_int 1024)

  abbrev pub percent_in : F → F → F
  percent_in used total =
      n.floats.round (n.floats.times (n.floats.over used total) (n.floats.of_int 100))

  abbrev pub disk_of : List Text → DiskUse F
  disk_of parts = record {
    mount = part 5 parts;
    device = part 0 parts;
    total_gb = n.floats.round (kb_in_gb (part 1 parts));
    used_gb = n.floats.round (kb_in_gb (part 2 parts));
    percent = percent_in (kb_in_gb (part 2 parts)) (kb_in_gb (part 1 parts));
  }

  -- a line that the list of mounts so far has no place for
  abbrev pub df_skips : List Text → List Text → Bool
  df_skips parts seen =
      ltb (length parts) 6
      || (is_pseudo (part 0 parts) || starts_with (codes "/snap") (part 5 parts))
      || any (λ m. m == part 5 parts) seen

  unfoldable pub df_loop : List Text → List Text → List (DiskUse F)
  df_loop seen [] = []
  df_loop seen (line ∷ lines) =
      let parts = words_max 5 line in
      elim (df_skips parts seen) [
        | true ↦ df_loop seen lines
        | false ↦
            let rest = df_loop (part 5 parts ∷ seen) lines in
            if n.floats.le (kb_in_gb (part 1 parts)) (n.floats.of_int 0)
            then rest
            else disk_of parts ∷ rest
      ]

  unfoldable pub parse_df : Text → List (DiskUse F)
  parse_df text = sort_by (λ d. d.mount) (df_loop [] (but_first (filled_lines text)))

  abbrev pub dfi_skips : List Text → List Text → Bool
  dfi_skips parts seen =
      ltb (length parts) 6 || (any (λ m. m == part 5 parts) seen || is_pseudo (part 0 parts))

  abbrev pub inode_of : List Text → ℤ → ℤ → InodeUse F
  inode_of parts total used = record {
    mount = part 5 parts;
    inodes_total = total;
    inodes_used = used;
    inodes_percent = percent_in (to_float n (part 2 parts)) (to_float n (part 1 parts));
  }

  -- `int(t)` and `int(u)` raise where a number is not finite
  unfoldable pub dfi_loop : List Text → List Text → Option (List (InodeUse F))
  dfi_loop seen [] = some []
  dfi_loop seen (line ∷ lines) =
      let parts = words_max 5 line in
      elim (dfi_skips parts seen) [
        | true ↦ dfi_loop seen lines
        | false ↦ elim (n.floats.le (to_float n (part 1 parts)) (n.floats.of_int 0)) [
          | true ↦ dfi_loop (part 5 parts ∷ seen) lines
          | false ↦ elim (n.truncate (to_float n (part 1 parts))) [
            | not_a_number ↦ none
            | too_large ↦ none
            | whole total ↦ elim (n.truncate (to_float n (part 2 parts))) [
              | not_a_number ↦ none
              | too_large ↦ none
              | whole used ↦ elim (dfi_loop (part 5 parts ∷ seen) lines) [
                | none ↦ none
                | some rest ↦ some (inode_of parts total used ∷ rest)
              ]
            ]
          ]
        ]
      ]

  unfoldable pub parse_dfi : Text → Option (List (InodeUse F))
  parse_dfi text = elim (dfi_loop [] (but_first (filled_lines text))) [
    | none ↦ none
    | some found ↦ some (sort_by (λ d. d.mount) found)
  ]
