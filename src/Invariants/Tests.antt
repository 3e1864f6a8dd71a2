-- ===== src/Invariants/Tests.antt =====
-- What the tests of the checker say.
use rtlfarm.Prelude.{
  leb, String, ◌≡◌, refl, sym, ap, ◌∙◌, ◌↔◌, true, false, List, [], ◌∷◌, length, Option, none, some,
  some_inj, string_eq, nat_eq, arith,
}
use rtlfarm.Sorting.{sorted, text_leq, text_leq-IsOrder}
use rtlfarm.Sorting.Selected.{length-sorted}
use rtlfarm.Submit.Tables.{Lease, unleased, EventRow}
use rtlfarm.Invariants.{is_same, is_only, holds_lease, event_leq}

is_only_iff :
    (ids : List String) (lease : Option String)
    → (is_only ids lease ≡ true) ↔ ((id : String) × (ids ≡ id ∷ []) × (lease ≡ some id))
is_only_iff [] lease = (λ h. absurd cc, λ h. absurd cc)
is_only_iff (x ∷ y ∷ ids) lease =
    (λ h. absurd cc, λ (id, same, held). absurd (longer (ap length same)))
  where
    longer : length (x ∷ y ∷ ids) ≡ 1 → ⊥
    longer e = omega arith
is_only_iff (x ∷ []) none = (λ h. absurd cc, λ (id, same, held). absurd cc)
is_only_iff (x ∷ []) (some y) = (
  λ h. (x, refl, ap some (sym ((string_eq.beq_iff x y).0 h))),
  λ (id, same, held). (string_eq.beq_iff x y).1 (first same ∙ sym (some_inj held)),
)
  where
    first : {u v : String} → u ∷ [] ≡ v ∷ [] → u ≡ v
    first e = cc

pub is_same_iff : (a b : Option String) → (is_same a b ≡ true) ↔ (a ≡ b)
is_same_iff none none = (λ h. refl, λ h. refl)
is_same_iff none (some b) = (λ h. absurd cc, λ h. absurd cc)
is_same_iff (some a) none = (λ h. absurd cc, λ h. absurd cc)
is_same_iff (some a) (some b) =
    (λ h. ap some ((string_eq.beq_iff a b).0 h), λ h. (string_eq.beq_iff a b).1 (some_inj h))

-- A sorted list of one value is that value.
sorted-one : (ids : List String) (id : String) → (sorted text_leq ids ≡ id ∷ []) ↔ (ids ≡ id ∷ [])
unfolding sorted
sorted-one [] id = (λ h. h, λ h. h)
sorted-one (x ∷ []) id = (λ h. h, λ h. h)
sorted-one (x ∷ y ∷ ids) id = (
  λ h. absurd (let size = sym (length-sorted text_leq (x ∷ y ∷ ids)) ∙ ap length h in omega arith),
  λ h. absurd (let size = ap length h in omega arith),
)

-- The ids of the active attempts, sorted, are the lease alone.
pub is_only-sorted :
    (ids : List String) (lease : Option String)
    → (is_only (sorted text_leq ids) lease ≡ true)
      ↔ ((id : String) × (ids ≡ id ∷ []) × (lease ≡ some id))
is_only-sorted ids lease = (
  λ h.
      let (id, same, held) = (is_only_iff (sorted text_leq ids) lease).0 h in
      (id, (sorted-one ids id).0 same, held),
  λ (id, same, held).
      (is_only_iff (sorted text_leq ids) lease).1 (id, (sorted-one ids id).1 same, held),
)

pub holds_lease_iff : (l : Lease) → (holds_lease l ≡ false) ↔ (l ≡ unleased)
holds_lease_iff l = ground arith

pub event_leq_total : (a b : EventRow) → event_leq a b ≡ false → event_leq b a ≡ true
unfolding event_leq
event_leq_total a b h = ground (
  arith,
  string_eq.beq_iff a.task_id b.task_id,
  string_eq.beq_iff b.task_id a.task_id,
  text_leq-IsOrder.total a.task_id b.task_id,
)

pub event_leq_trans :
    (a b c : EventRow) → event_leq a b ≡ true → event_leq b c ≡ true → event_leq a c ≡ true
unfolding event_leq
event_leq_trans a b c h k = ground (
  arith,
  string_eq.beq_iff a.task_id b.task_id,
  string_eq.beq_iff b.task_id c.task_id,
  string_eq.beq_iff a.task_id c.task_id,
  text_leq-IsOrder.trans a.task_id b.task_id c.task_id,
  text_leq-IsOrder.antisym a.task_id b.task_id,
)

-- Events of one task are in the order of their numbers.
pub event_leq-same : (e f : EventRow) → e.task_id ≡ f.task_id → event_leq e f ≡ leb e.seq f.seq
unfolding event_leq
event_leq-same e f same = rw ((string_eq.beq_iff e.task_id f.task_id).1 same, event_leq) refl
