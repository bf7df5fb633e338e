-- ===== src/Health/Tree.antt =====
-- The tree of a host's health, `health_tree` of backend/app/health.py, from what its queries give.
pub mod Overall
mod Tests
use lab_gpu_server_monitor.Prelude.{
  ℕ, ◌+◌, Bool, true, false, not, ◌&&◌, ◌||◌, Option, none, some, List, [], ◌∷◌, ◌++◌,
  if◌then◌else◌, Text, codes, text_eq, nat_beq, ltb, leb, ◌==◌, keep, map, take, length, non_empty,
}
use lab_gpu_server_monitor.Prelude.Decimal.{decimal}
use lab_gpu_server_monitor.Alerts.{Floats, or_zero, get_zero, maximum, percent_of}

pub data Status : Type 0 where
  ok : Status
  warning : Status
  critical : Status

pub record Iface (F : Type 0) : Type 0 where
  pub iface : Text
  pub rx_err_rate : Option F
  pub tx_err_rate : Option F

-- the columns of the newest sample; of its disks and inodes the percentages
pub record Newest (F : Type 0) : Type 0 where
  pub status : Text
  pub error_code : Text
  pub error : Text
  pub ssh_latency : F
  pub duration : F
  pub cpu_percent : F
  pub cpu_iowait : Option F
  pub mem_used_mb : F
  pub mem_total_mb : F
  pub disk_percents : List F
  pub inode_percents : List F
  pub net_ifaces : List (Iface F)

-- what `gpu_risk_score` says of one GPU
pub record GpuRisk (F : Type 0) : Type 0 where
  pub index : Option ℕ
  pub name : Text
  pub risk : ℕ
  pub xid_events : ℕ
  pub ecc_uncorrected_max : ℕ
  pub thermal_throttle_samples : ℕ
  pub max_temp : F

-- the settings, the risks, and the kernel events of a day with the critical ones among them
pub record Findings (F : Type 0) : Type 0 where
  pub cpu_threshold : F
  pub mem_threshold : F
  pub disk_threshold : F
  pub risks : List (GpuRisk F)
  pub kernel_events : ℕ
  pub critical_events : ℕ

-- an entry without children of its own
pub record Leaf : Type 0 where
  pub name : Text
  pub status : Status
  pub detail : Text

pub record Category : Type 0 where
  pub entry : Leaf
  pub children : List Leaf

pub record Tree : Type 0 where
  pub categories : List Category
  pub overall : Status

-- the worse of the status so far and the next
abbrev pub worsen : Status → Status → Status
worsen overall critical = critical
worsen critical warning = critical
worsen ok warning = warning
worsen warning warning = warning
worsen overall ok = overall

-- `cat`, and the children that are put below it
unfoldable pub cat : Leaf → List Leaf → Tree → Tree
cat leaf children t = record {
  categories = t.categories ++ record { entry = leaf; children = children } ∷ [];
  overall = worsen t.overall leaf.status;
}

unfoldable pub worst : Status → List Leaf → Status
worst s [] = s
worst s (c ∷ cs) = worst (worsen s c.status) cs

-- `sep.join(parts)`
unfoldable pub join_with : Text → List Text → Text
join_with sep [] = []
join_with sep (p ∷ []) = p
join_with sep (p ∷ q ∷ ps) = p ++ (sep ++ join_with sep (q ∷ ps))

module _ {F : Type 0} (fl : Floats F) where
  abbrev pub shown : F → Text
  shown v = fl.show (fl.round v)

  abbrev pub connectivity : Newest F → Leaf
  connectivity m =
      if m.status == codes "error"
      then record {
        name = codes "连通性";
        status = critical;
        detail = m.error_code ++ (codes ": " ++ take 80 m.error);
      }
      else record {
        name = codes "连通性";
        status = ok;
        detail =
            codes "SSH "
            ++ (fl.show m.ssh_latency ++ (codes "s · 采集 " ++ (fl.show m.duration ++ codes "s")));
      }

  abbrev pub below : F → F → Status
  below v threshold = if fl.lt v threshold then ok else warning

  abbrev pub cpu_leaf : Findings F → Newest F → Leaf
  cpu_leaf f m = record {
    name = codes "CPU";
    status = below m.cpu_percent f.cpu_threshold;
    detail =
        shown m.cpu_percent
        ++ (codes "% · iowait " ++ (shown (or_zero fl m.cpu_iowait) ++ codes "%"));
  }

  abbrev pub mem_leaf : Findings F → Newest F → Leaf
  mem_leaf f m =
      let percent = get_zero fl (percent_of fl m.mem_used_mb m.mem_total_mb) in
      record {
        name = codes "内存";
        status = below percent f.mem_threshold;
        detail = shown percent ++ codes "%";
      }

  -- the inodes are shown, and their percentage decides nothing
  abbrev pub disk_leaf : Findings F → Newest F → Leaf
  disk_leaf f m =
      let fullest = get_zero fl (maximum fl m.disk_percents) in
      let inodes = get_zero fl (maximum fl m.inode_percents) in
      record {
        name = codes "文件系统";
        status = below fullest f.disk_threshold;
        detail =
            codes "空间 "
            ++ (shown fullest
                ++ (codes "%"
                    ++ (if fl.truthy inodes
                        then codes " · inode " ++ (shown inodes ++ codes "%")
                        else [])));
      }

  abbrev pub has_errors : Iface F → Bool
  has_errors i = fl.gt (fl.plus (or_zero fl i.rx_err_rate) (or_zero fl i.tx_err_rate)) (fl.of_int 0)

  abbrev pub net_leaf : Newest F → Leaf
  net_leaf m =
      let errors = keep has_errors m.net_ifaces in
      let names = join_with (codes ", ") (map (λ i. i.iface ++ codes " err") (take 3 errors)) in
      record {
        name = codes "网络";
        status = if nat_beq (length errors) 0 then ok else warning;
        detail = if non_empty names then names else codes "正常";
      }

  abbrev pub risk_status : GpuRisk F → Status
  risk_status r = if leb 60 r.risk then critical else if leb 30 r.risk then warning else ok

  abbrev pub risk_bits : GpuRisk F → List Text
  risk_bits r =
      (if nat_beq r.xid_events 0 then [] else (codes "Xid×" ++ decimal r.xid_events) ∷ [])
      ++ ((if nat_beq r.ecc_uncorrected_max 0
            then []
            else (codes "ECC-Unc " ++ decimal r.ecc_uncorrected_max) ∷ [])
          ++ (if nat_beq r.thermal_throttle_samples 0 then [] else codes "热降频" ∷ []))

  abbrev pub gpu_leaf : GpuRisk F → Leaf
  gpu_leaf r =
      let bits = join_with (codes "/") (risk_bits r) in
      record {
        name = codes "GPU" ++ (elim r.index [ none ↦ codes "None" | some i ↦ decimal i ]);
        status = risk_status r;
        detail =
            r.name
            ++ (codes " · 最高 "
                ++ (fl.show r.max_temp
                    ++ (codes "°C" ++ (if non_empty bits then codes " · " ++ bits else []))));
      }

  unfoldable pub gpu_category : List (GpuRisk F) → Tree → Tree
  gpu_category [] t = t
  gpu_category (r ∷ risks) t =
      let children = map gpu_leaf (r ∷ risks) in
      cat
        (record {
          name = codes "GPU";
          status = worst ok children;
          detail = decimal (length children) ++ codes " 卡";
        })
        children t

  abbrev pub kernel_leaf : Findings F → Leaf
  kernel_leaf f =
      if nat_beq f.kernel_events 0
      then record { name = codes "内核事件"; status = ok; detail = codes "24h 无异常" }
      else record {
        name = codes "内核事件";
        status = if nat_beq f.critical_events 0 then warning else critical;
        detail =
            codes "24h 内 "
            ++ (decimal f.kernel_events
                ++ (codes " 条（" ++ (decimal f.critical_events ++ codes " 条严重）")));
      }

  -- the categories of a sample of status "ok"
  unfoldable pub measured : Findings F → Newest F → Tree → Tree
  measured f m t =
      cat (net_leaf m) [] (cat (disk_leaf f m) [] (cat (mem_leaf f m) [] (cat (cpu_leaf f m) [] t)))

  -- `health_tree` of a server with a sample
  unfoldable pub health_tree : Findings F → Newest F → Tree
  health_tree f m =
      let begun = cat (connectivity m) [] (record { categories = []; overall = ok }) in
      let judged = if m.status == codes "ok" then measured f m begun else begun in
      cat (kernel_leaf f) [] (gpu_category f.risks judged)
