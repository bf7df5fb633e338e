-- ===== src/Health/Risk.antt =====
-- The risk of a GPU from its samples of a day, `gpu_risk_scores` in backend/app/health.py: what is
-- counted, the score, its label. The counters that the collector stores as integers are natural
-- numbers; a temperature is a Python number.
use lab_gpu_server_monitor.Prelude.{
  ℕ, ◌+◌, ◌*◌, ◌/◌, ◌≤◌, ◌≡◌, ap, min, max, Bool, true, not, ◌&&◌, ◌||◌, List, [], ◌∷◌,
  if◌then◌else◌, Text, codes, text_eq, nat_beq, ltb, ◌==◌, any, arith,
}
use lab_gpu_server_monitor.Alerts.{Floats, or_zero}
use lab_gpu_server_monitor.Health.{contains_text}
use lab_gpu_server_monitor.Prelude.{Option}

-- what the score reads of a GPU in one sample
pub record GpuSample (F : Type 0) : Type 0 where
  pub temperature : Option F
  pub throttle_reasons : List Text
  pub ecc_uncorrected_volatile : ℕ
  pub ecc_corrected_volatile : ℕ
  pub pcie_width_current : ℕ
  pub pcie_width_max : ℕ

pub record Tally (F : Type 0) : Type 0 where
  pub max_temp : F
  pub thermal_throttle_samples : ℕ
  pub samples : ℕ
  pub ecc_uncorrected_max : ℕ
  pub ecc_corrected_max : ℕ
  pub xid_events : ℕ
  pub power_cap_samples : ℕ
  pub pcie_degraded_samples : ℕ

abbrev one_if : Bool → ℕ
one_if b = if b then 1 else 0

abbrev pub is_thermal : Text → Bool
is_thermal r = contains_text (codes "THERMAL") r || r == codes "HW_SLOWDOWN"

abbrev pub corrected_part : ℕ → ℕ
corrected_part n = min 15 (if ltb 100 n then 10 else if ltb 0 n then 5 else 0)

abbrev pub throttle_part : ℕ → ℕ
throttle_part n = if ltb 0 n then min 15 (5 + n) else 0

-- five points for a count above a limit
abbrev pub above_part : ℕ → ℕ → ℕ
above_part limit n = if ltb limit n then 5 else 0

corrected_part_le : (n : ℕ) → corrected_part n ≤ 10
corrected_part_le n = ground arith

throttle_part_le : (n : ℕ) → throttle_part n ≤ 15
throttle_part_le n = ground arith

above_part_le : (limit n : ℕ) → above_part limit n ≤ 5
above_part_le limit n = ground arith

five_if_le : (b : Bool) → (if b then 5 else 0) ≤ 5
five_if_le b = ground arith

capped_le : (cap n m : ℕ) → n ≤ m → min cap n ≤ min cap m
capped_le cap n m h = ground arith

corrected_part_monotone : (n m : ℕ) → n ≤ m → corrected_part n ≤ corrected_part m
corrected_part_monotone n m h = ground arith

throttle_part_monotone : (n m : ℕ) → n ≤ m → throttle_part n ≤ throttle_part m
throttle_part_monotone n m h = ground arith

above_part_monotone :
    (limit limit' n m : ℕ) → limit ≡ limit' → n ≤ m → above_part limit n ≤ above_part limit' m
above_part_monotone limit limit' n m same h = ground arith

five_if_monotone :
    (a b : Bool) → (a ≡ true → b ≡ true) → (if a then 5 else 0) ≤ (if b then 5 else 0)
five_if_monotone a b h = ground arith

module _ {F : Type 0} (fl : Floats F) where
  abbrev pub new_tally : Tally F
  new_tally = record {
    max_temp = fl.of_int 0;
    thermal_throttle_samples = 0;
    samples = 0;
    ecc_uncorrected_max = 0;
    ecc_corrected_max = 0;
    xid_events = 0;
    power_cap_samples = 0;
    pcie_degraded_samples = 0;
  }

  abbrev pub is_degraded : GpuSample F → Bool
  is_degraded g =
      not (nat_beq g.pcie_width_max 0)
      && (not (nat_beq g.pcie_width_current 0) && ltb g.pcie_width_current g.pcie_width_max)

  -- one sample is counted
  unfoldable pub observe : GpuSample F → Tally F → Tally F
  observe g d =
      let t = or_zero fl g.temperature in
      record d {
        samples = d.samples + 1;
        max_temp = if fl.gt t d.max_temp then t else d.max_temp;
        thermal_throttle_samples =
            d.thermal_throttle_samples + one_if (any is_thermal g.throttle_reasons);
        power_cap_samples =
            d.power_cap_samples + one_if (any (λ r. r == codes "SW_POWER_CAP") g.throttle_reasons);
        ecc_uncorrected_max = max d.ecc_uncorrected_max g.ecc_uncorrected_volatile;
        ecc_corrected_max = max d.ecc_corrected_max g.ecc_corrected_volatile;
        pcie_degraded_samples = d.pcie_degraded_samples + one_if (is_degraded g);
      }

  unfoldable pub observe_all : List (GpuSample F) → Tally F → Tally F
  observe_all [] d = d
  observe_all (g ∷ gs) d = observe_all gs (observe g d)

  abbrev pub pcie_part : Tally F → ℕ
  pcie_part d = above_part (max 1 (d.samples / 10)) d.pcie_degraded_samples

  abbrev pub heat_part : Tally F → ℕ
  heat_part d = if fl.ge d.max_temp (fl.of_int 85) then 5 else 0

  -- `score`, before it is capped
  unfoldable pub score : Tally F → ℕ
  score d =
      min 40 (d.xid_events * 20)
      + min 25 (d.ecc_uncorrected_max * 5)
      + corrected_part d.ecc_corrected_max
      + throttle_part d.thermal_throttle_samples
      + heat_part d
      + pcie_part d

  abbrev pub risk : Tally F → ℕ
  risk d = min 100 (score d)

  -- The parts of the score never add up to more than 100, so that the cap takes nothing away.
  pub score-bounded : (d : Tally F) → score d ≤ 100
  unfolding score
  score-bounded d = omega (
    arith,
    corrected_part_le d.ecc_corrected_max,
    throttle_part_le d.thermal_throttle_samples,
    five_if_le (fl.ge d.max_temp (fl.of_int 85)),
    above_part_le (max 1 (d.samples / 10)) d.pcie_degraded_samples,
  )

  score_monotone :
      (d worse : Tally F)
      → d.samples ≡ worse.samples
      → d.xid_events ≤ worse.xid_events
      → d.ecc_uncorrected_max ≤ worse.ecc_uncorrected_max
      → d.ecc_corrected_max ≤ worse.ecc_corrected_max
      → d.thermal_throttle_samples ≤ worse.thermal_throttle_samples
      → d.pcie_degraded_samples ≤ worse.pcie_degraded_samples
      → (fl.ge d.max_temp (fl.of_int 85) ≡ true → fl.ge worse.max_temp (fl.of_int 85) ≡ true)
      → score d ≤ score worse
  unfolding score
  score_monotone d worse hs hx hu hc ht hp hot =
      let same : max 1 (d.samples / 10) ≡ max 1 (worse.samples / 10) =
        ap (λ n. max 1 (n / 10)) hs in
      let pcie : pcie_part d ≤ pcie_part worse =
        above_part_monotone (max 1 (d.samples / 10)) (max 1 (worse.samples / 10))
          d.pcie_degraded_samples worse.pcie_degraded_samples same hp in
      omega (
        arith,
        capped_le 40 (d.xid_events * 20) (worse.xid_events * 20) (omega arith),
        capped_le 25 (d.ecc_uncorrected_max * 5) (worse.ecc_uncorrected_max * 5) (omega arith),
        corrected_part_monotone d.ecc_corrected_max worse.ecc_corrected_max hc,
        throttle_part_monotone d.thermal_throttle_samples worse.thermal_throttle_samples ht,
        five_if_monotone (fl.ge d.max_temp (fl.of_int 85)) (fl.ge worse.max_temp (fl.of_int 85))
            hot,
        pcie,
      )

  -- Of two GPUs with the same number of samples, the one that is no hotter and has no more of any
  -- count has no higher risk.
  pub risk_monotone :
      (d worse : Tally F)
      → d.samples ≡ worse.samples
      → d.xid_events ≤ worse.xid_events
      → d.ecc_uncorrected_max ≤ worse.ecc_uncorrected_max
      → d.ecc_corrected_max ≤ worse.ecc_corrected_max
      → d.thermal_throttle_samples ≤ worse.thermal_throttle_samples
      → d.pcie_degraded_samples ≤ worse.pcie_degraded_samples
      → (fl.ge d.max_temp (fl.of_int 85) ≡ true → fl.ge worse.max_temp (fl.of_int 85) ≡ true)
      → risk d ≤ risk worse
  risk_monotone d worse hs hx hu hc ht hp hot =
      capped_le 100 (score d) (score worse) (score_monotone d worse hs hx hu hc ht hp hot)
