-- ===== src/Reliability/Health/Tests.antt =====
-- Runs of the health checker, with a clock for the world.
use openclaw_enterprise_plug.Common.{ℕ, ◌+◌, ◌≡◌, refl, true, none, [], ◌∷◌}
use openclaw_enterprise_plug.Common.Dict
use openclaw_enterprise_plug.Reliability.Health.{
  HealthChecker, HealthProbe, ProbeResult, answered, thrown, healthy, unhealthy, register_probe,
  failed, check_probe, check, check_from,
}

abbrev clock : ℕ → ℕ
clock w = w

abbrev fine : ProbeResult
fine = record { healthy = true; latency_ms = 4; message = none; details = none }

abbrev quick : HealthProbe ℕ
quick w = (w + 4, answered fine)

abbrev broken : HealthProbe ℕ
broken w = (w + 9, thrown "refused")

abbrev checker : HealthChecker ℕ
checker = register_probe "storage" quick (record { probes = []; start_time = 0 })

check_run : (check clock checker 10).1.status ≡ healthy
unfolding check check_from check_probe Dict.set Dict.get
check_run = refl

broken_run :
    (check clock (register_probe "queue" broken checker) 10).1.probes
    ≡ ("storage", fine) ∷ ("queue", failed 9 "Probe failed: refused") ∷ []
unfolding check check_from check_probe Dict.set Dict.get
broken_run = refl

broken_status_run : (check clock (register_probe "queue" broken checker) 10).1.status ≡ unhealthy
unfolding check check_from check_probe Dict.set Dict.get
broken_status_run = refl

unknown_run : (check_probe clock checker "cache" 10).1 ≡ failed 0 "Probe 'cache' not found"
unfolding check_probe Dict.set Dict.get
unknown_run = refl
