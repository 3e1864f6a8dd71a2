-- ===== src/Config/Samples.antt =====
-- The production defaults, over whole seconds, and a pipeline's timeouts.
use rtlfarm.Prelude.{◌≡◌, refl, [], ◌∷◌}
use rtlfarm.Config.{TimingConfig, kill_below_timeouts, validate_timing}
use rtlfarm.Config.Timing.{exact, IsOrdered, validate_timing_sound}

abbrev pub defaults : TimingConfig (exact 1)
defaults = record {
  tick_s = 1;
  heartbeat_s = 5;
  lease_ttl_s = 30;
  backstop_grace_s = 15;
  worker_dead_after_s = 90;
  kill_grace_s = 5;
  claim_wait_s = 20;
  client_read_timeout_s = 30;
  requeue_backoff_s = 0 ∷ 5 ∷ 30 ∷ [];
  full_sweep_every = 30;
  readyz_tick_factor = 3;
  upload_timeout_s = 300;
}

accepted : validate_timing (exact 1) defaults (60 ∷ 600 ∷ []) ≡ []
unfolding validate_timing
accepted = refl

-- A stage that may run no longer than the kill grace.
too_short : validate_timing (exact 1) defaults (5 ∷ []) ≡ kill_below_timeouts ∷ []
unfolding validate_timing
too_short = refl

validate_timing_sound_example : IsOrdered defaults (60 ∷ 600 ∷ [])
validate_timing_sound_example = validate_timing_sound defaults (60 ∷ 600 ∷ []) accepted
