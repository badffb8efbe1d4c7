-- ===== src/Updates/Expiry.antt =====
-- How long the maintenance of maintenance.ts lasts, over any sequence of its beginnings and of
-- the questions of the guards.
use Prim.Native.String.{String}
use home_server_interface.Base.{
  ℕ, ◌+◌, ◌<◌, true, List, [], ◌∷◌, Option, none, some, arith, ◌≡◌, refl, inl, inr, Option-cases,
  All, ◌∙◌, ap, subst, sym,
}
use home_server_interface.Updates.{
  Maintenance, MaintenanceKind, MaintenanceState, UpdateResult, begin_maintenance,
  maintenance_holds, current_maintenance, expires_after_ms, cache_ms, fresh_answer, still_holds,
  answer,
}

pub data Event : Type 0 where
  begins : MaintenanceKind → Option String → ℕ → Event
  asks : ℕ → Option UpdateResult → Event

abbrev pub step : Event → MaintenanceState → MaintenanceState
step (begins kind target now) s = begin_maintenance kind target now
step (asks now last) s = (current_maintenance now last s).1

abbrev pub run : List Event → MaintenanceState → MaintenanceState
run [] s = s
run (e ∷ events) s = run events (step e s)

-- HSI has just started.
abbrev pub started : MaintenanceState
started = record { current = none; cached = none }

abbrev InTime : ℕ → Option Maintenance → Type 0
InTime at none = Unit
InTime at (some m) = at < m.since + expires_after_ms m.kind

-- The cached answer was true when it was given.
abbrev IsSound : Option (ℕ × Option Maintenance) → Type 0
IsSound none = Unit
IsSound (some (at, value)) = InTime at value

still_holds-InTime :
    (now : ℕ) (last : Option UpdateResult) (m : Option Maintenance)
    → InTime now (still_holds now last m)
unfolding maintenance_holds
still_holds-InTime now last none = tt
still_holds-InTime now last (some m) = ground arith

answer-IsSound :
    (now : ℕ) (last : Option UpdateResult) (current : Option Maintenance)
    (cached : Option (ℕ × Option Maintenance))
    → IsSound cached
    → IsSound (answer now last current cached).1.cached
unfolding answer
answer-IsSound now last none cached sound = sound
answer-IsSound now last (some m) cached sound = elim (Option-cases (fresh_answer now cached)) [
  | inl f ↦ rw (answer, f) (still_holds-InTime now last (some m))
  | inr (value, f) ↦ rw (answer, f) sound
]

step-IsSound : (e : Event) (s : MaintenanceState) → IsSound s.cached → IsSound (step e s).cached
unfolding begin_maintenance current_maintenance
step-IsSound (begins kind target now) s sound = tt
step-IsSound (asks now last) s sound = answer-IsSound now last s.current s.cached sound

run-IsSound :
    (events : List Event) (s : MaintenanceState) → IsSound s.cached → IsSound (run events s).cached
run-IsSound [] s sound = sound
run-IsSound (e ∷ events) s sound = run-IsSound events (step e s) (step-IsSound e s sound)

answer_in_time :
    (now : ℕ) (cached : Option (ℕ × Option Maintenance)) (m : Maintenance)
    → IsSound cached
    → fresh_answer now cached ≡ some (some m)
    → now < m.since + expires_after_ms m.kind + cache_ms
answer_in_time now none m sound e = absurd (ground (arith, e))
answer_in_time now (some (at, none)) m sound e = absurd (ground (arith, e))
answer_in_time now (some (at, some n)) m sound e = ground (arith, e, sound)

held_in_time :
    (now : ℕ) (last : Option UpdateResult) (n m : Maintenance)
    → still_holds now last (some n) ≡ some m
    → now < m.since + expires_after_ms m.kind + cache_ms
unfolding maintenance_holds
held_in_time now last n m e = ground (arith, e)

answer-in_time :
    (now : ℕ) (last : Option UpdateResult) (current : Option Maintenance)
    (cached : Option (ℕ × Option Maintenance)) (m : Maintenance)
    → IsSound cached
    → (answer now last current cached).0 ≡ some m
    → now < m.since + expires_after_ms m.kind + cache_ms
unfolding answer
answer-in_time now last none cached m sound e = absurd (ground (arith, e))
answer-in_time now last (some n) cached m sound e = elim (Option-cases (fresh_answer now cached)) [
  | inl f ↦ held_in_time now last n m (rw (answer, f) at e)
  | inr (value, f) ↦ answer_in_time now cached m sound (f ∙ ap some (rw (answer, f) at e))
]

-- However often a maintenance began and was asked for since HSI started, one that is answered lasts
-- at most two seconds longer than its kind allows: an hour for an update, five minutes for a
-- restart and fifteen for a reboot.
pub current_maintenance-run :
    (events : List Event) (now : ℕ) (last : Option UpdateResult) (m : Maintenance)
    → (current_maintenance now last (run events started)).0 ≡ some m
    → now < m.since + expires_after_ms m.kind + cache_ms
unfolding current_maintenance
current_maintenance-run events now last m e =
    answer-in_time now last (run events started).current (run events started).cached m
      (run-IsSound events started tt) e

-- The questions about a maintenance that holds: it has not expired, and the worker has no result
-- that ends it.
abbrev pub Holds : Maintenance → List (ℕ × Option UpdateResult) → Type 0
Holds m questions = All (λ q. maintenance_holds m q.0 q.1 ≡ true) questions

abbrev pub answers : List (ℕ × Option UpdateResult) → MaintenanceState → List (Option Maintenance)
answers [] s = []
answers ((now, last) ∷ questions) s =
    (current_maintenance now last s).0 ∷ answers questions (current_maintenance now last s).1

abbrev SaysSo : Maintenance → Option (ℕ × Option Maintenance) → Type 0
SaysSo m none = Unit
SaysSo m (some (at, value)) = value ≡ some m

abbrev IsKept : Maintenance → MaintenanceState → Type 0
IsKept m s = (s.current ≡ some m) × SaysSo m s.cached

fresh_answer-SaysSo :
    (now : ℕ) (m : Maintenance) (cached : Option (ℕ × Option Maintenance))
    (value : Option Maintenance)
    → SaysSo m cached
    → fresh_answer now cached ≡ some value
    → value ≡ some m
fresh_answer-SaysSo now m none value says e = absurd (ground (arith, e))
fresh_answer-SaysSo now m (some (at, given)) value says e = ground (arith, e, says)

answer-IsKept :
    (now : ℕ) (last : Option UpdateResult) (m : Maintenance)
    (cached : Option (ℕ × Option Maintenance))
    → maintenance_holds m now last ≡ true
    → SaysSo m cached
    → ((answer now last (some m) cached).0 ≡ some m) × IsKept m (answer now last (some m) cached).1
unfolding answer
answer-IsKept now last m cached holds says = elim (Option-cases (fresh_answer now cached)) [
  | inl f ↦ rw (answer, f, holds) (refl, (refl, refl))
  | inr (value, f) ↦ rw (answer, f) (fresh_answer-SaysSo now m cached value says f, (refl, says))
]

answers-IsKept :
    (m : Maintenance) (questions : List (ℕ × Option UpdateResult)) (s : MaintenanceState)
    → IsKept m s
    → Holds m questions
    → All (λ a. a ≡ some m) (answers questions s)
unfolding current_maintenance
answers-IsKept m [] s kept holds = tt
answers-IsKept m ((now, last) ∷ questions) s kept holds =
    let here =
      subst
        (λ c. ((answer now last c s.cached).0 ≡ some m) × IsKept m (answer now last c s.cached).1)
        (sym kept.0) (answer-IsKept now last m s.cached holds.0 kept.1) in
    (here.0, answers-IsKept m questions (answer now last s.current s.cached).1 here.1 holds.1)

-- From its beginning on, every question gets a maintenance for an answer as long as it holds: no
-- cached answer from before its beginning and none of its own hides it.
pub answers-begin_maintenance :
    (kind : MaintenanceKind) (target : Option String) (now : ℕ)
    (questions : List (ℕ × Option UpdateResult))
    → Holds (record { kind = kind; target = target; since = now }) questions
    → All
        (λ a. a ≡ some (record { kind = kind; target = target; since = now }))
        (answers questions (begin_maintenance kind target now))
unfolding begin_maintenance
answers-begin_maintenance kind target now questions holds =
    answers-IsKept (record { kind = kind; target = target; since = now }) questions
      (begin_maintenance kind target now) (refl, tt) holds
