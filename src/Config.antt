-- ===== src/Config.antt =====
-- src/rtlfarm/config.py: the timing constants and the orderings that `validate_timing` enforces.
--
-- The constants are floats: the arithmetic that the tests use is the argument `Floats`.
pub mod Values
pub mod Fields
pub mod Timing
pub mod Samples
pub mod Layers
pub mod Keys
pub mod Typed
pub mod Loaded
mod Examples
use rtlfarm.Prelude.{
  ℕ, Bool, true, false, not, ◌&&◌, List, [], ◌∷◌, ◌++◌, map, all, leb, length, if◌then◌else◌,
}

-- Python's float arithmetic, with an integer as a float.
pub record Floats : Type 1 where
  pub Float : Type 0
  pub of_int : ℕ → Float
  pub plus : Float → Float → Float
  pub times : Float → Float → Float
  pub less : Float → Float → Bool
  pub at_most : Float → Float → Bool

-- Which test failed; the message names the values.
pub data Rule : Type 0 where
  tick_positive heartbeat_positive lease_positive backstop_positive dead_after_positive
        kill_positive :
      Rule
  claim_wait_positive read_timeout_positive upload_positive sweep_counts readyz_counts
        backoff_listed :
      Rule
  survives_missed_heartbeats dead_before_expiry timeout_before_backstop dead_after_lease : Rule
  poll_within_timeout tick_within_heartbeat timeouts_positive kill_below_timeouts : Rule

module _ (f : Floats) where
  -- `readyz_tick_factor` and `full_sweep_every` are integers.
  pub record TimingConfig : Type 0 where
    pub tick_s : f.Float
    pub heartbeat_s : f.Float
    pub lease_ttl_s : f.Float
    pub backstop_grace_s : f.Float
    pub worker_dead_after_s : f.Float
    pub kill_grace_s : f.Float
    pub claim_wait_s : f.Float
    pub client_read_timeout_s : f.Float
    pub requeue_backoff_s : List f.Float
    pub full_sweep_every : ℕ
    pub readyz_tick_factor : ℕ
    pub upload_timeout_s : f.Float

  abbrev pub positive : f.Float → Bool
  positive x = f.less (f.of_int 0) x

  abbrev pub checks : TimingConfig → List ℕ → List (Bool × Rule)
  checks t timeouts =
      (positive t.tick_s, tick_positive)
      ∷ (positive t.heartbeat_s, heartbeat_positive)
      ∷ (positive t.lease_ttl_s, lease_positive)
      ∷ (positive t.backstop_grace_s, backstop_positive)
      ∷ (positive t.worker_dead_after_s, dead_after_positive)
      ∷ (positive t.kill_grace_s, kill_positive)
      ∷ (positive t.claim_wait_s, claim_wait_positive)
      ∷ (positive t.client_read_timeout_s, read_timeout_positive)
      ∷ (positive t.upload_timeout_s, upload_positive)
      ∷ (leb 1 t.full_sweep_every, sweep_counts)
      ∷ (leb 1 t.readyz_tick_factor, readyz_counts)
      ∷ (
        leb 1 (length t.requeue_backoff_s)
            && all (λ b. f.at_most (f.of_int 0) b) t.requeue_backoff_s,
        backoff_listed,
      )
      ∷ (f.less (f.times (f.of_int 3) t.heartbeat_s) t.lease_ttl_s, survives_missed_heartbeats)
      ∷ (f.less (f.plus t.heartbeat_s t.kill_grace_s) t.lease_ttl_s, dead_before_expiry)
      ∷ (f.less (f.plus t.kill_grace_s t.heartbeat_s) t.backstop_grace_s, timeout_before_backstop)
      ∷ (f.less t.lease_ttl_s t.worker_dead_after_s, dead_after_lease)
      ∷ (
        f.at_most (f.plus t.claim_wait_s (f.of_int 5)) t.client_read_timeout_s,
        poll_within_timeout,
      )
      ∷ (f.at_most t.tick_s t.heartbeat_s, tick_within_heartbeat)
      ∷ (all (λ x. positive (f.of_int x)) timeouts, timeouts_positive)
      ∷ (all (λ x. f.less t.kill_grace_s (f.of_int x)) timeouts, kill_below_timeouts)
      ∷ []

  -- [message for ok, message in checks if not ok]
  unfoldable pub failures : List (Bool × Rule) → List Rule
  failures [] = []
  failures ((passed, rule) ∷ rest) =
      let others = failures rest in if not passed then rule ∷ others else others

  -- The list of the rules that `TimingError` names; no exception is the empty list.
  unfoldable pub validate_timing : TimingConfig → List ℕ → List Rule
  unfolding failures
  validate_timing t timeouts = failures (checks t timeouts)
