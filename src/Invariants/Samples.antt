-- ===== src/Invariants/Samples.antt =====
-- The checker on small graphs and on the store of the sample job.
use rtlfarm.Prelude.{
  ◌≡◌, refl, ◌↔◌, Bool, true, false, List, none, some, [], ◌∷◌, ok, string_eq, nat_eq,
}
use rtlfarm.Submit.Tables.{Db}
use rtlfarm.Submit.Farm.{empty}
use rtlfarm.Sorting.{sorted, place}
use rtlfarm.Invariants.{
  event_leq, many_committed, seq_gap, stale_state, Violation, check_invariants,
}
use rtlfarm.Invariants.Kahn.{DepEdge, kahn_has_cycle}
use rtlfarm.Invariants.Kahn.Walk.{HasCycle}
use rtlfarm.Invariants.Kahn.Decides.{kahn_decides}
use rtlfarm.Invariants.Recorded.{IsConsistent, check_invariants_decides}

abbrev ring : List DepEdge
ring = ("lint", "compile") ∷ ("compile", "simulate") ∷ ("simulate", "compile") ∷ []

abbrev chain : List DepEdge
chain = ("lint", "compile") ∷ ("lint", "simulate") ∷ ("compile", "simulate") ∷ []

ring_found : kahn_has_cycle ring ≡ ok true
unfolding kahn_has_cycle
ring_found = refl

chain_clear : kahn_has_cycle chain ≡ ok false
unfolding kahn_has_cycle
chain_clear = refl

kahn_decides_example :
    (found : Bool) × (kahn_has_cycle ring ≡ ok found) × ((found ≡ true) ↔ HasCycle ring)
kahn_decides_example = kahn_decides ring

-- Two committed attempts of one task, and an event that counts from 2.
broken : Db
broken = record empty {
  attempts =
      record { attempt_id = "a1"; task_id = "t"; state = "COMMITTED" }
      ∷ record { attempt_id = "a2"; task_id = "t"; state = "COMMITTED" }
      ∷ [];
  events =
      record { task_id = "t"; seq = 2; at_ms = 0; actor = "api"; to_state = "PENDING"; attempt = 0 }
      ∷ [];
}

broken_found :
    check_invariants broken
    ≡ ok (many_committed "t" 2 ∷ seq_gap "t" (2 ∷ []) ∷ stale_state "t" none (some "PENDING") ∷ [])
unfolding check_invariants sorted place event_leq broken
broken_found = refl

check_invariants_decides_example :
    (found : List Violation) × (check_invariants empty ≡ ok found)
    × ((found ≡ []) ↔ IsConsistent empty)
check_invariants_decides_example = check_invariants_decides empty
