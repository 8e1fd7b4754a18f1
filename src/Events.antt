-- ===== src/Events.antt =====
-- The timers of common/event_table_object.cpp and common/event_manager.h, with the one holder that the servers
-- have. The table of an object holds pointers to the events of the holder, and an event that leaves the holder
-- is marked as deleted, so that the live part of that table is the events of the object in the holder that are
-- not deleted.
pub mod Due
pub mod Fires
pub mod Pass
mod Tests
use dream_heroes.Base.{
  Bool, List, Option, [], has, if◌then◌else◌, leb, map, none, not, some, suc, true, zero, ℕ, ◌&&◌,
  ◌++◌, ◌-◌, ◌==◌, ◌^◌, ◌||◌, ◌∷◌,
}
use dream_heroes.Base.Int.{pos, ℤ, ◌-ℤ◌, ◌==ℤ◌}
use mathlib.Core.Option

-- `obj` is the object that the event belongs to, and `callback` is absent for a null pointer.
pub record TimedEvent (C : Type 0) : Type 0 where
  pub obj : ℕ
  pub callback : Option C
  pub event_type : ℕ
  pub not_in_world : Bool
  pub deletes_object : Bool
  pub ms_time : ℕ
  pub curr_time : ℕ
  pub repeats : ℤ
  pub deleted : Bool

-- What a callback does to the timers.
pub data Command (C : Type 0) : Type 0 where
  add_event : TimedEvent C → Command C
  remove_events : ℕ → ℕ → Command C
  modify_event_time_and_time_left : ℕ → ℕ → ℕ → Command C

module _ {C : Type 0} where
  -- `m_events.find(EventType)` in the table of an object.
  pub is_of : ℕ → ℕ → TimedEvent C → Bool
  is_of o type e = (e.obj == o) && (e.event_type == type)

  -- `eventHasEvent`
  pub event_has_event : ℕ → ℕ → List (TimedEvent C) → Bool
  event_has_event o type = has λ e. is_of o type e && not e.deleted

  -- `eventRemoveEvents(EventType)` on one event, with `EVENT_REMOVAL_FLAG_ALL`.
  pub event_remove : ℕ → ℕ → TimedEvent C → TimedEvent C
  event_remove o type e =
      if (e.obj == o) && ((type == 2 ^ 32 - 1) || (e.event_type == type))
      then record e { deleted = true }
      else e

  -- `eventModifyTimeAndTimeLeft` on one event
  pub event_modify_time_and_time_left : ℕ → ℕ → ℕ → TimedEvent C → TimedEvent C
  event_modify_time_and_time_left o type time e =
      if is_of o type e then record e { curr_time = time; ms_time = time } else e

  -- A command, on an event that is there.
  pub touch : Command C → TimedEvent C → TimedEvent C
  touch (add_event new) e = e
  touch (remove_events o type) e = event_remove o type e
  touch (modify_event_time_and_time_left o type time) e =
      event_modify_time_and_time_left o type time e

  -- `push_back` of a new event.
  pub added : Command C → List (TimedEvent C)
  added (add_event new) = new ∷ []
  added (remove_events o type) = []
  added (modify_event_time_and_time_left o type time) = []

  pub touch_all : List (Command C) → TimedEvent C → TimedEvent C
  touch_all [] e = e
  touch_all (x ∷ xs) e = touch_all xs (touch x e)

  -- The commands on the events behind the one that runs, where new events come last.
  pub obey : List (Command C) → List (TimedEvent C) → List (TimedEvent C)
  obey [] l = l
  obey (x ∷ xs) l = obey xs (map (touch x) l ++ added x)

  -- What `update` does to an event that has run: the event that stays, if it stays.
  pub settle : TimedEvent C → List (TimedEvent C)
  settle e =
      let left = e.repeats -ℤ pos 1 in
      if e.deletes_object
      then []
      else if not (e.repeats ==ℤ pos 0) && (left ==ℤ pos 0)
      then []
      else if e.deleted
      then []
      else record e {
        curr_time = e.ms_time;
        repeats = if e.repeats ==ℤ pos 0 then e.repeats else left;
      }
        ∷ []

  pub is_gone : TimedEvent C → Bool
  is_gone e = e.deleted || e.not_in_world

-- `execute` stands for the callbacks: from one of them, the rest of the program, and the events as they stand
-- to the rest of the program after it and its commands.
module _ {C S : Type 0} (execute : C → S → List (TimedEvent C) → S × List (Command C)) where
  -- An event that is due, with the rest of the loop: a callback that is absent is dropped.
  pub run :
      (List (TimedEvent C) → List (TimedEvent C) → S → Option (List (TimedEvent C) × S × List C))
      → List (TimedEvent C)
      → TimedEvent C
      → List (TimedEvent C)
      → S
      → Option C
      → Option (List (TimedEvent C) × S × List C)
  run again before e rest s none = again before rest s
  run again before e rest s (some c) =
      let (s', commands) = execute c s (before ++ e ∷ rest) in
      Option.map (λ (l, s'', ran). (l, s'', c ∷ ran))
        (again (map (touch_all commands) before ++ settle (touch_all commands e))
          (obey commands rest) s')

  -- The loop of `EventableObjectHolder::update`: `before` is what it has passed and kept. With the events at its
  -- end it returns the program and the callbacks that ran. New events can come without end: the fuel.
  pub update :
      ℕ
      → ℕ
      → List (TimedEvent C)
      → List (TimedEvent C)
      → S
      → Option (List (TimedEvent C) × S × List C)
  update zero dt before rest s = none
  update (suc fuel) dt before [] s = some (before, s, [])
  update (suc fuel) dt before (e ∷ rest) s =
      let skipped = update fuel dt before rest s in
      let waits =
        update fuel dt (before ++ record e { curr_time = e.curr_time - dt } ∷ []) rest s in
      let runs = run (update fuel dt) before e rest s e.callback in
      if is_gone e then skipped else if leb e.curr_time dt then runs else waits
