-- ===== src/Config/Timing.antt =====
-- What a configuration that `validate_timing` accepts guarantees, over exact arithmetic.
use rtlfarm.Prelude.{
  ℕ, ◌+◌, ◌*◌, ◌≤◌, ◌<◌, ◌≡◌, refl, ap, ◌↔◌, ◌≢◌, Bool, true, false, List, [], ◌∷◌, All, All-Memᴰ,
  all_iff, Memᴰ, length, ltb, leb, arith,
}
use rtlfarm.Config.{Floats, TimingConfig, Rule, checks, failures, validate_timing}

-- Whole milliseconds, or any unit of which a second is a multiple: where the floats' sums and products
-- are exact they are those of the numbers.
abbrev pub exact : ℕ → Floats
exact second = record {
  Float = ℕ;
  of_int = λ n. n * second;
  plus = λ a b. a + b;
  times = λ a b. a * b;
  less = ltb;
  at_most = leb;
}

failures-nil :
    (f : Floats) (cs : List (Bool × Rule)) → (failures f cs ≡ []) ↔ All (λ c. c.0 ≡ true) cs
unfolding failures
failures-nil f [] = (λ h. tt, λ h. refl)
failures-nil f ((true, rule) ∷ cs) =
    let rest = failures-nil f cs in (λ h. (refl, rest.0 h), λ h. rest.1 h.1)
failures-nil f ((false, rule) ∷ cs) = (λ h. absurd cc, λ h. absurd cc)

-- The orderings between the constants, and to the pipeline's timeouts, in the floats' own arithmetic.
pub record IsTimed (f : Floats) (t : TimingConfig f) (timeouts : List ℕ) : Type 0 where
  pub two_missed : f.less (f.times (f.of_int 3) t.heartbeat_s) t.lease_ttl_s ≡ true
  pub fenced : f.less (f.plus t.heartbeat_s t.kill_grace_s) t.lease_ttl_s ≡ true
  pub backstop : f.less (f.plus t.kill_grace_s t.heartbeat_s) t.backstop_grace_s ≡ true
  pub dead_last : f.less t.lease_ttl_s t.worker_dead_after_s ≡ true
  pub polled : f.at_most (f.plus t.claim_wait_s (f.of_int 5)) t.client_read_timeout_s ≡ true
  pub ticked : f.at_most t.tick_s t.heartbeat_s ≡ true
  pub killed : (x : ℕ) → Memᴰ x timeouts → f.less t.kill_grace_s (f.of_int x) ≡ true

-- Each of them is the condition of a rule.
pub validate_timing-IsTimed :
    (f : Floats) (t : TimingConfig f) (timeouts : List ℕ)
    → validate_timing f t timeouts ≡ []
    → IsTimed f t timeouts
unfolding validate_timing
validate_timing-IsTimed f t timeouts h =
    let all_pass = (failures-nil f (checks f t timeouts)).0 h in
    let behind = all_pass.1.1.1.1.1.1.1.1.1.1.1.1 in
    record {
      two_missed = behind.0;
      fenced = behind.1.0;
      backstop = behind.1.1.0;
      dead_last = behind.1.1.1.0;
      polled = behind.1.1.1.1.0;
      ticked = behind.1.1.1.1.1.0;
      killed = λ x m.
          All-Memᴰ (λ x. f.less t.kill_grace_s (f.of_int x) ≡ true) timeouts
            ((all_iff (λ x. f.less t.kill_grace_s (f.of_int x)) timeouts).0 behind.1.1.1.1.1.1.1.0)
            m;
    }

-- The orderings that the lease, the heartbeat, the backstop and the transport rely on.
pub record IsOrdered (t : TimingConfig (exact 1)) (timeouts : List ℕ) : Type 0 where
  pub fenced : t.heartbeat_s + t.kill_grace_s < t.lease_ttl_s
  pub two_missed : 3 * t.heartbeat_s < t.lease_ttl_s
  pub backstop : t.kill_grace_s + t.heartbeat_s < t.backstop_grace_s
  pub dead_last : (t.lease_ttl_s < t.worker_dead_after_s) × (3 * t.tick_s < t.worker_dead_after_s)
  pub polled : t.claim_wait_s + 5 ≤ t.client_read_timeout_s
  pub killed : (x : ℕ) → Memᴰ x timeouts → t.kill_grace_s < x
  pub backoff : t.requeue_backoff_s ≢ []

-- Over whole seconds, a configuration that `validate_timing` accepts for a pipeline's timeouts has the
-- orderings that the farm relies on: a lease outlives three heartbeats, and a heartbeat with the kill
-- grace; a worker is dead only after its lease and three ticks; the backstop comes after the kill; a
-- long poll ends before the client's timeout; and the kill grace is below every stage timeout.
pub validate_timing_sound :
    (t : TimingConfig (exact 1)) (timeouts : List ℕ)
    → validate_timing (exact 1) t timeouts ≡ []
    → IsOrdered t timeouts
unfolding validate_timing
validate_timing_sound t timeouts h =
    let (
      tick_p,
      (
        hb_p,
        (
          lease_p,
          (
            back_p,
            (
              dead_p,
              (
                kill_p,
                (
                  claim_p,
                  (
                    read_p,
                    (
                      upload_p,
                      (
                        sweep,
                        (
                          readyz,
                          (
                            backoff,
                            (
                              missed,
                              (fenced, (backstop, (dead, (poll, (tick, (pos, (kill, rest))))))),
                            ),
                          ),
                        ),
                      ),
                    ),
                  ),
                ),
              ),
            ),
          ),
        ),
      ),
    ) =
      (failures-nil (exact 1) (checks (exact 1) t timeouts)).0 h in
    record {
      fenced = ground arith;
      two_missed = ground arith;
      backstop = ground arith;
      dead_last = (ground arith, ground arith);
      polled = ground arith;
      killed = λ x m.
          let below =
            All-Memᴰ (λ x. ltb t.kill_grace_s (x * 1) ≡ true) timeouts
              ((all_iff (λ x. ltb t.kill_grace_s (x * 1)) timeouts).0 kill) m in
          ground arith;
      backoff = λ empty. let size = ap length empty in ground arith;
    }
