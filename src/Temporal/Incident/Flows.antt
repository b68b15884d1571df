-- ===== src/Temporal/Incident/Flows.antt =====
-- Properties of a part of the workflow: one of the state it goes on with, one of the state and the
-- outcome it returns.
use forgeiq.Prelude.{List, Bool, true, false, ◌≡◌, refl, if◌then◌else◌}
use forgeiq.Temporal.Incident.{State, Event, Outcome, Flow, go_on, return, and_then}

abbrev pub After : (State → Type 0) → (State → Outcome → Type 0) → Flow → Type 0
After P Q (go_on st) = P st
After P Q (return st o) = Q st o

abbrev pub Always : (State → Type 0) → Flow → Type 0
Always P f = After P (λ st o. P st) f

abbrev pub events_of : Flow → List Event
events_of (go_on st) = st.events
events_of (return st o) = st.events

pub and_then-After :
    (P : State → Type 0) (R : State → Type 0) (Q : State → Outcome → Type 0) (f : Flow)
    (next : State → Flow)
    → After P Q f
    → ((st : State) → P st → After R Q (next st))
    → After R Q (and_then f next)
and_then-After P R Q (go_on st) next h k = k st h
and_then-After P R Q (return st o) next h k = h

pub Always-events :
    (P : List Event → Type 0) (f : Flow) → Always (λ st. P st.events) f → P (events_of f)
Always-events P (go_on st) h = h
Always-events P (return st o) h = h

pub After-if :
    (P : State → Type 0) (Q : State → Outcome → Type 0) (b : Bool) (f g : Flow)
    → (b ≡ true → After P Q f)
    → (b ≡ false → After P Q g)
    → After P Q (if b then f else g)
After-if P Q true f g h k = h refl
After-if P Q false f g h k = k refl
