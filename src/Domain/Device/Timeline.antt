-- ===== src/Domain/Device/Timeline.antt =====
-- The merged event list of a device: sorted by time, and a rearrangement of the two logs.
use alcor_device_farm.Prelude.{ℕ, ◌≤◌, inl, inr, List, [], ◌∷◌, ◌++◌, arith, ltb, Bool-cases}
use mathlib.Core.List.{Perm}
use mathlib.Core.List.Perm
use alcor_device_farm.Domain.Machine.{TransitionEvent}
use alcor_device_farm.Domain.Device.{Device, insert_event, sort_events, device_events}

-- every event of the list is at `t` or later
abbrev pub From : ℕ → List TransitionEvent → Type 0
From t [] = Unit
From t (e ∷ es) = (t ≤ e.time) × From t es

abbrev pub IsSorted : List TransitionEvent → Type 0
IsSorted [] = Unit
IsSorted (e ∷ es) = From e.time es × IsSorted es

From-mono : (s t : ℕ) (es : List TransitionEvent) → s ≤ t → From t es → From s es
From-mono s t [] h f = tt
From-mono s t (e ∷ es) h f = (omega arith, From-mono s t es h f.1)

insert_event-From :
    (t : ℕ) (e : TransitionEvent) (es : List TransitionEvent)
    → t ≤ e.time
    → From t es
    → From t (insert_event e es)
unfolding insert_event
insert_event-From t e [] h f = (h, tt)
insert_event-From t e (x ∷ xs) h f = ground (arith, insert_event-From t e xs h f.1)

insert_event-IsSorted :
    (e : TransitionEvent) (es : List TransitionEvent) → IsSorted es → IsSorted (insert_event e es)
unfolding insert_event
insert_event-IsSorted e [] s = (tt, tt)
insert_event-IsSorted e (x ∷ xs) s = ground (
  arith,
  insert_event-IsSorted e xs s.1,
  insert_event-From x.time e xs,
  From-mono e.time x.time xs,
)

sort_events-IsSorted : (es : List TransitionEvent) → IsSorted (sort_events es)
unfolding sort_events
sort_events-IsSorted [] = tt
sort_events-IsSorted (e ∷ es) = insert_event-IsSorted e (sort_events es) (sort_events-IsSorted es)

insert_event-perm :
    (e : TransitionEvent) (es : List TransitionEvent) → Perm (insert_event e es) (e ∷ es)
unfolding insert_event
insert_event-perm e [] = Perm.refl (e ∷ [])
insert_event-perm e (x ∷ xs) = elim (Bool-cases (ltb x.time e.time)) [
  | inl h ↦ rw h (Perm.trans (Perm.cons x (insert_event-perm e xs)) (Perm.swap e x xs))
  | inr h ↦ rw h (Perm.refl (e ∷ x ∷ xs))
]

sort_events-perm : (es : List TransitionEvent) → Perm (sort_events es) es
unfolding sort_events
sort_events-perm [] = Perm.refl []
sort_events-perm (e ∷ es) =
    Perm.trans (insert_event-perm e (sort_events es)) (Perm.cons e (sort_events-perm es))

-- The event list of a device is sorted by time, and holds exactly the events of its lifecycle log
-- and of its health log.
pub device_events_merge :
    (d : Device)
    → IsSorted (device_events d) × Perm (device_events d) (d.lifecycle.events ++ d.events)
unfolding device_events
device_events_merge d =
    let es = d.lifecycle.events ++ d.events in (sort_events-IsSorted es, sort_events-perm es)
