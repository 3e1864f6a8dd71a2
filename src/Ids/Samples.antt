-- ===== src/Ids/Samples.antt =====
-- Ids of a sample job.
use rtlfarm.Prelude.{
  ℕ, ◌^◌, ◌-◌, ◌≤◌, ◌<◌, String, ◌≡◌, refl, true, ok, raise, clock_out_of_range, invalid_name,
  attempt_out_of_range, string_eq, arith,
}
use rtlfarm.Ids.{codes, is_name, is_ulid, validate_name, task_id, attempt_id}
use rtlfarm.Ids.Decimal.{decimal}
use rtlfarm.Ids.Distinct.{task_id_inj}
use rtlfarm.Ids.Ulid.{new_ulid, new_ulid-is_ulid, new_ulid_rises}
use rtlfarm.Sorting.{precedes}

abbrev job_id : String
job_id = "01ARZ3NDEKTSV4RRFFQ69G5FAV"

abbrev kind : String
kind = "simulate"

abbrev counter : String
counter = "counter-8"

abbrev seed : ℕ
seed = 42

abbrev counter_id : String
counter_id = "01ARZ3NDEKTSV4RRFFQ69G5FAV.simulate.counter-8.s42"

counter_task : task_id job_id kind counter seed ≡ ok counter_id
unfolding task_id is_ulid validate_name is_name decimal
counter_task = refl

-- A name may not hold a dot, and the first attempt is number 1.
dotted : validate_name "a.b" ≡ raise (invalid_name "a.b")
unfolding validate_name is_name
dotted = refl

first_attempt : attempt_id counter_id 1 ≡ ok "01ARZ3NDEKTSV4RRFFQ69G5FAV.simulate.counter-8.s42.a1"
unfolding attempt_id decimal
first_attempt = refl

no_attempt : attempt_id counter_id 0 ≡ raise (attempt_out_of_range 0)
unfolding attempt_id
no_attempt = refl

task_id_inj_example : (job_id ≡ job_id) × (kind ≡ kind) × (counter ≡ counter) × (seed ≡ seed)
task_id_inj_example =
    task_id_inj job_id kind counter job_id kind counter seed seed counter_id counter_task
      counter_task

-- Two ids one millisecond apart, the later one with the smaller random bits.
early_id : new_ulid (2 ^ 80 - 1) 1_469_918_176_385 ≡ ok "01ARYZ6S41ZZZZZZZZZZZZZZZZ"
unfolding new_ulid
early_id = refl

late_id : new_ulid 0 1_469_918_176_386 ≡ ok "01ARYZ6S420000000000000000"
unfolding new_ulid
late_id = refl

new_ulid-is_ulid_example :
    (1_469_918_176_385 < 2 ^ 48
      → (id : String) × (new_ulid 7 1_469_918_176_385 ≡ ok id) × (is_ulid id ≡ true))
    × (2 ^ 48 ≤ 1_469_918_176_385
        → new_ulid 7 1_469_918_176_385 ≡ raise (clock_out_of_range 1_469_918_176_385))
new_ulid-is_ulid_example = new_ulid-is_ulid 7 1_469_918_176_385 (omega arith)

new_ulid_rises_example :
    precedes (codes "01ARYZ6S41ZZZZZZZZZZZZZZZZ") (codes "01ARYZ6S420000000000000000") ≡ true
new_ulid_rises_example =
    new_ulid_rises (2 ^ 80 - 1) 0 1_469_918_176_385 1_469_918_176_386 "01ARYZ6S41ZZZZZZZZZZZZZZZZ"
      "01ARYZ6S420000000000000000" (omega arith) (omega arith) (omega arith) early_id late_id
