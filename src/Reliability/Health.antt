-- ===== src/Reliability/Health.antt =====
-- src/reliability/health/health-checker-impl.ts and health-checker.ts. A probe is a function of the
-- world: it changes it, and answers a result or throws. The clock reads the world. No probe registers
-- another one while it runs. The details of a result are a text, and the field `name` of a probe,
-- which nothing reads, is left out.
mod Tests
use openclaw_enterprise_plug.Common.{
  ℕ, ◌-◌, String, ◌≡◌, refl, sym, ap, ◌∙◌, Bool, true, false, Option, none, some, List, [], ◌∷◌,
  ◌&&◌, append, if◌then◌else◌, All, arith, eq_iff, str_eq,
}
use openclaw_enterprise_plug.Common.Dict
use openclaw_enterprise_plug.Common.Dict.{Dict}

pub record ProbeResult : Type 0 where
  pub healthy : Bool
  pub latency_ms : ℕ
  pub message : Option String
  pub details : Option String

pub data Status : Type 0 where
  healthy degraded unhealthy : Status

pub record HealthReport : Type 0 where
  pub status : Status
  pub version : String
  pub uptime : ℕ
  pub probes : Dict ProbeResult
  pub timestamp : ℕ

-- How the check of a probe ends: with a result, or with an error of which this is the text.
pub data Outcome : Type 0 where
  answered : ProbeResult → Outcome
  thrown : String → Outcome

abbrev pub HealthProbe : Type 0 → Type 0
HealthProbe W = W → W × Outcome

pub record HealthChecker (W : Type 0) : Type 0 where
  pub probes : Dict (HealthProbe W)
  pub start_time : ℕ

abbrev pub register_probe :
    {W : Type 0} → String → HealthProbe W → HealthChecker W → HealthChecker W
register_probe name probe h = record h { probes = Dict.set h.probes name probe }

abbrev pub failed : ℕ → String → ProbeResult
failed latency message = record {
  healthy = false;
  latency_ms = latency;
  message = some message;
  details = none;
}

-- The `try` and the `catch` around the check; `start` and `end` are the readings of the clock.
abbrev pub result_of : ℕ → ℕ → Outcome → ProbeResult
result_of start end (answered r) = r
result_of start end (thrown e) = failed (end - start) (append "Probe failed: " e)

module _ {W : Type 0} (clock : W → ℕ) where
  abbrev pub run_probe : String → Option (HealthProbe W) → W → W × ProbeResult
  run_probe name none w = (w, failed 0 (append "Probe '" (append name "' not found")))
  run_probe name (some probe) w =
      let (w', outcome) = probe w in (w', result_of (clock w) (clock w') outcome)

  unfoldable pub check_probe : HealthChecker W → String → W → W × ProbeResult
  check_probe h name w = run_probe name (Dict.get h.probes name) w

  -- The loop of `check` over the probes that are left, with the results and the worst status.
  unfoldable pub check_from :
      HealthChecker W
      → Dict (HealthProbe W)
      → Dict ProbeResult
      → Status
      → W
      → W × (Dict ProbeResult × Status)
  check_from h [] results worst w = (w, (results, worst))
  check_from h ((name, probe) ∷ l) results worst w =
      let (w', r) = check_probe h name w in
      check_from h l (Dict.set results name r) (if r.healthy then worst else unhealthy) w'

  unfoldable pub check : HealthChecker W → W → W × HealthReport
  unfolding check_from
  check h w =
      let (w', (results, worst)) = check_from h h.probes [] healthy w in
      (
        w',
        record {
          status = worst;
          version = "0.1.0";
          uptime = clock w' - h.start_time;
          probes = results;
          timestamp = clock w';
        },
      )

abbrev pub all_healthy : Dict ProbeResult → Bool
all_healthy [] = true
all_healthy ((name, r) ∷ l) = r.healthy && all_healthy l

-- The status of a report with these results.
abbrev pub status_of : Dict ProbeResult → Status
status_of results = if all_healthy results then healthy else unhealthy

all_healthy-set :
    (results : Dict ProbeResult) (name : String) (r : ProbeResult)
    → Dict.get results name ≡ none
    → all_healthy (Dict.set results name r) ≡ (if r.healthy then all_healthy results else false)
unfolding Dict.get Dict.set
all_healthy-set [] name r h = ground arith
all_healthy-set ((n, x) ∷ l) name r h = ground (arith, h, all_healthy-set l name r)

status_of-set :
    (results : Dict ProbeResult) (name : String) (r : ProbeResult)
    → Dict.get results name ≡ none
    → status_of (Dict.set results name r) ≡ (if r.healthy then status_of results else unhealthy)
status_of-set results name r h = ground (arith, all_healthy-set results name r h)

-- None of the probes has a result.
IsOpen : {W : Type 0} → Dict (HealthProbe W) → Dict ProbeResult → Type 0
IsOpen l results = All (λ e. Dict.get results e.0 ≡ none) l

IsOpen-set :
    {W : Type 0} (l : Dict (HealthProbe W)) (results : Dict ProbeResult) (name : String)
    (r : ProbeResult)
    → Dict.get l name ≡ none
    → IsOpen l results
    → IsOpen l (Dict.set results name r)
unfolding IsOpen Dict.get
IsOpen-set [] results name r n h = tt
IsOpen-set ((k, p) ∷ l) results name r n h = (
  ground (arith, n, h.0, Dict.get-set results name r k, eq_iff name k, eq_iff k name),
  IsOpen-set l results name r (ground (arith, n)) h.1,
)

IsOpen-none : {W : Type 0} (l : Dict (HealthProbe W)) → IsOpen l []
unfolding IsOpen Dict.get
IsOpen-none [] = tt
IsOpen-none (e ∷ l) = (refl, IsOpen-none l)

module _ {W : Type 0} (clock : W → ℕ) (h : HealthChecker W) where
  check_from-status :
      (l : Dict (HealthProbe W)) (results : Dict ProbeResult) (worst : Status) (w : W)
      → Dict.IsUnique l
      → IsOpen l results
      → worst ≡ status_of results
      → let (w', (results', worst')) = check_from clock h l results worst w in
        worst' ≡ status_of results'
  unfolding check_from IsOpen
  check_from-status [] results worst w u o e = e
  check_from-status ((name, probe) ∷ l) results worst w u o e =
      let (w', r) = check_probe clock h name w in
      check_from-status l (Dict.set results name r) (if r.healthy then worst else unhealthy) w' u.1
        (IsOpen-set l results name r u.0 o.1)
        (ap (λ s. if r.healthy then s else unhealthy) e ∙ sym (status_of-set results name r o.0))

  -- A report says that the system is healthy if all results in it are healthy, and unhealthy
  -- otherwise; it never says degraded.
  pub check-status :
      (w : W)
      → Dict.IsUnique h.probes
      → (check clock h w).1.status ≡ status_of (check clock h w).1.probes
  unfolding check
  check-status w u = check_from-status h.probes [] healthy w u (IsOpen-none h.probes) refl
