-- ===== src/Health/Tree/Overall.antt =====
-- What the overall status in `health_tree` of backend/app/health.py says.
use lab_gpu_server_monitor.Prelude.{
  ◌≡◌, refl, ap, ◌∙◌, Bool, true, false, not, ◌&&◌, ◌||◌, List, [], ◌∷◌, ◌++◌, if◌then◌else◌, codes,
  text_eq, nat_beq, leb, ◌==◌, any, map, arith,
}
use lab_gpu_server_monitor.Alerts.{Floats}
use lab_gpu_server_monitor.Health.Tree.{
  Status, ok, warning, critical, Leaf, Category, Tree, Findings, Newest, GpuRisk, worsen, cat,
  worst, gpu_leaf, connectivity, cpu_leaf, mem_leaf, disk_leaf, net_leaf, kernel_leaf, gpu_category,
  measured, health_tree, risk_status,
}

abbrev pub is_critical : Status → Bool
is_critical critical = true
is_critical warning = false
is_critical ok = false

abbrev pub is_ok : Status → Bool
is_ok critical = false
is_ok warning = false
is_ok ok = true

-- the overall status is the worst of the categories'
abbrev pub IsWorst : Tree → Type 0
IsWorst t =
    (is_critical t.overall ≡ any (λ c. is_critical c.entry.status) t.categories)
    × (is_ok t.overall ≡ not (any (λ c. not (is_ok c.entry.status)) t.categories))

any-snoc {ℓ} :
    {A : Type ℓ} (p : A → Bool) (xs : List A) (x : A) → any p (xs ++ x ∷ []) ≡ (any p xs || p x)
any-snoc p [] x = ground arith
any-snoc p (y ∷ xs) x = ground (arith, any-snoc p xs x)

worsen-is_critical : (s u : Status) → is_critical (worsen s u) ≡ (is_critical s || is_critical u)
worsen-is_critical s u = ground arith

worsen-is_ok : (s u : Status) → is_ok (worsen s u) ≡ (is_ok s && is_ok u)
worsen-is_ok s u = ground arith

cat-IsWorst :
    (leaf : Leaf) (children : List Leaf) (t : Tree) → IsWorst t → IsWorst (cat leaf children t)
unfolding cat
cat-IsWorst leaf children t h =
    let added : Category = record { entry = leaf; children = children } in
    (
      ground (
        arith,
        h.0,
        worsen-is_critical t.overall leaf.status,
        any-snoc (λ c. is_critical c.entry.status) t.categories added,
      ),
      ground (
        arith,
        h.1,
        worsen-is_ok t.overall leaf.status,
        any-snoc (λ c. not (is_ok c.entry.status)) t.categories added,
      ),
    )

or_eq : (a b c d e : Bool) → a ≡ (b || c) → d ≡ e → (a || d) ≡ (b || c || e)
or_eq a b c d e h k = ground (arith, h, k)

cat_mild :
    (leaf : Leaf) (t : Tree)
    → is_critical leaf.status ≡ false
    → is_critical (cat leaf [] t).overall ≡ is_critical t.overall
unfolding cat
cat_mild leaf t h = ground (arith, worsen-is_critical t.overall leaf.status, h)

either-IsWorst : (b : Bool) (t u : Tree) → IsWorst t → IsWorst u → IsWorst (if b then t else u)
either-IsWorst true t u h k = h
either-IsWorst false t u h k = k

either-is_critical :
    (b c : Bool) (t u : Tree)
    → is_critical t.overall ≡ c
    → is_critical u.overall ≡ c
    → is_critical (if b then t else u).overall ≡ c
either-is_critical true c t u h k = h
either-is_critical false c t u h k = k

module _ {F : Type 0} (fl : Floats F) where
  worst-gpus :
      (s : Status) (risks : List (GpuRisk F))
      → is_critical (worst s (map (gpu_leaf fl) risks))
        ≡ (is_critical s || any (λ r. leb 60 r.risk) risks)
  unfolding worst
  worst-gpus s [] = ground arith
  worst-gpus s (r ∷ risks) = ground (
    arith,
    worst-gpus (worsen s (risk_status fl r)) risks,
    worsen-is_critical s (risk_status fl r),
  )

  gpu_category-IsWorst :
      (risks : List (GpuRisk F)) (t : Tree) → IsWorst t → IsWorst (gpu_category fl risks t)
  unfolding gpu_category
  gpu_category-IsWorst [] t h = h
  gpu_category-IsWorst (r ∷ risks) t h = cat-IsWorst _ _ t h

  gpu_category-is_critical :
      (risks : List (GpuRisk F)) (t : Tree)
      → is_critical (gpu_category fl risks t).overall
        ≡ (is_critical t.overall || any (λ r. leb 60 r.risk) risks)
  unfolding gpu_category cat
  gpu_category-is_critical [] t = ground arith
  gpu_category-is_critical (r ∷ risks) t =
      let children = map (gpu_leaf fl) (r ∷ risks) in
      ground (arith, worsen-is_critical t.overall (worst ok children), worst-gpus ok (r ∷ risks))

  measured-IsWorst :
      (f : Findings F) (m : Newest F) (t : Tree) → IsWorst t → IsWorst (measured fl f m t)
  unfolding measured
  measured-IsWorst f m t h =
      cat-IsWorst _ _ _ (cat-IsWorst _ _ _ (cat-IsWorst _ _ _ (cat-IsWorst _ _ t h)))

  -- Nothing that is measured makes the status critical.
  measured-is_critical :
      (f : Findings F) (m : Newest F) (t : Tree)
      → is_critical (measured fl f m t).overall ≡ is_critical t.overall
  unfolding measured
  measured-is_critical f m t =
      let t1 = cat (cpu_leaf fl f m) [] t in
      let t2 = cat (mem_leaf fl f m) [] t1 in
      let t3 = cat (disk_leaf fl f m) [] t2 in
      cat_mild (net_leaf fl m) t3 (ground arith)
      ∙ cat_mild (disk_leaf fl f m) t2 (ground arith)
      ∙ cat_mild (mem_leaf fl f m) t1 (ground arith)
      ∙ cat_mild (cpu_leaf fl f m) t (ground arith)

  -- the tree with the connectivity alone, and with what is measured
  abbrev begun : Newest F → Tree
  begun m = cat (connectivity fl m) [] (record { categories = []; overall = ok })

  abbrev judged : Findings F → Newest F → Tree
  judged f m = if m.status == codes "ok" then measured fl f m (begun m) else begun m

  begun-is_critical : (m : Newest F) → is_critical (begun m).overall ≡ (m.status == codes "error")
  unfolding cat
  begun-is_critical m = ground arith

  judged-is_critical :
      (f : Findings F) (m : Newest F)
      → is_critical (judged f m).overall ≡ (m.status == codes "error")
  judged-is_critical f m =
      either-is_critical (m.status == codes "ok") (m.status == codes "error")
        (measured fl f m (begun m)) (begun m)
        (measured-is_critical f m (begun m) ∙ begun-is_critical m) (begun-is_critical m)

  kernel-is_critical :
      (f : Findings F)
      → is_critical (kernel_leaf fl f).status
        ≡ (not (nat_beq f.kernel_events 0) && not (nat_beq f.critical_events 0))
  kernel-is_critical f = ground arith

  critical_part :
      (f : Findings F) (m : Newest F)
      → is_critical (cat (kernel_leaf fl f) [] (gpu_category fl f.risks (judged f m))).overall ≡ (
          (m.status == codes "error")
          || any (λ r. leb 60 r.risk) f.risks
          || not (nat_beq f.kernel_events 0) && not (nat_beq f.critical_events 0))
  unfolding cat
  critical_part f m =
      let all = gpu_category fl f.risks (judged f m) in
      worsen-is_critical all.overall (kernel_leaf fl f).status
      ∙ or_eq (is_critical all.overall) (m.status == codes "error")
          (any (λ r. leb 60 r.risk) f.risks) (is_critical (kernel_leaf fl f).status)
          (not (nat_beq f.kernel_events 0) && not (nat_beq f.critical_events 0))
          (gpu_category-is_critical f.risks (judged f m)
            ∙ ap (λ b. b || any (λ r. leb 60 r.risk) f.risks) (judged-is_critical f m))
          (kernel-is_critical f)

  -- The overall status is the worst of the categories'; and it is critical exactly if the newest
  -- sample is an error, a GPU has a risk of 60 or more, or a day's kernel events have a critical one.
  pub health_tree-overall :
      (f : Findings F) (m : Newest F)
      → IsWorst (health_tree fl f m)
        × (is_critical (health_tree fl f m).overall ≡ (
            (m.status == codes "error")
            || any (λ r. leb 60 r.risk) f.risks
            || not (nat_beq f.kernel_events 0) && not (nat_beq f.critical_events 0)))
  unfolding health_tree
  health_tree-overall f m =
      let first : IsWorst (begun m) =
        cat-IsWorst _ _ (record { categories = []; overall = ok }) (refl, refl) in
      let all = gpu_category fl f.risks (judged f m) in
      (
        cat-IsWorst _ _ all (
            gpu_category-IsWorst f.risks (judged f m) (
              either-IsWorst (m.status == codes "ok") _ _ (measured-IsWorst f m (begun m) first)
                first)),
        critical_part f m,
      )
