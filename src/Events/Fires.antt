-- ===== src/Events/Fires.antt =====
-- The passes of `EventableObjectHolder::update` of common/event_table_object.cpp one after another.
use dream_heroes.Base.{
  All, List, [], arith, false, inl, inr, some, ℕ, ◌++◌, ◌+◌, ◌∷◌, ◌≡◌, ◌≤◌, ◌⊎◌,
}
use dream_heroes.Events.{Command, TimedEvent, is_gone, update}
use dream_heroes.Events.Due.{In, In-left, In-right, IsLater, Spares, age}
use dream_heroes.Events.Pass.{pass-IsOver}

-- The passes of the time differences in order, with all the callbacks that ran in them.
pub data Updates {C S : Type 0} (execute : C → S → List (TimedEvent C) → S × List (Command C))
    : List ℕ → List (TimedEvent C) → S → List (TimedEvent C) → S → List C → Type 0 where
  ended : {l : List (TimedEvent C)} {s : S} → Updates execute [] l s l s []
  passes :
      {dt : ℕ} {dts : List ℕ} {l l' l'' : List (TimedEvent C)} {s s' s'' : S} {ran more : List C}
      (fuel : ℕ)
      → update execute fuel dt [] l s ≡ some (l', s', ran)
      → Updates execute dts l' s' l'' s'' more
      → Updates execute (dt ∷ dts) l s l'' s'' (ran ++ more)

abbrev pub sum : List ℕ → ℕ
sum [] = 0
sum (n ∷ ns) = n + sum ns

module _ {C S : Type 0} (execute : C → S → List (TimedEvent C) → S × List (Command C)) where
  -- The callbacks start and change no timer that is due within `dt`.
  abbrev pub IsPatient : ℕ → Type 0
  IsPatient dt = (k : C) (s : S) (l : List (TimedEvent C)) → All (IsLater dt) (execute k s l).1

  -- No callback but `c` concerns the events of this kind of this object.
  abbrev pub LeavesTo : C → ℕ → ℕ → Type 0
  LeavesTo c o type =
      (k : C) (s : S) (l : List (TimedEvent C)) → (k ≡ c) ⊎ All (Spares o type) (execute k s l).1

  abbrev pub AllEnd : List ℕ → List (TimedEvent C) → S → (List C → Type 0) → Type 0
  AllEnd dts l s P =
      (l' : List (TimedEvent C)) × (s' : S) × (ran : List C) × Updates execute dts l s l' s' ran
      × P ran

all_end :
    {C S : Type 0} (execute : C → S → List (TimedEvent C) → S × List (Command C)) (c : C)
    (e : TimedEvent C) (dts : List ℕ) (l : List (TimedEvent C)) (s : S)
    → is_gone e ≡ false
    → e.callback ≡ some c
    → All (IsPatient execute) dts
    → LeavesTo execute c e.obj e.event_type
    → AllEnd execute dts l s (λ ran. Unit)
all_end execute c e [] l s live call patient others = (l, s, [], ended, tt)
all_end execute c e (dt ∷ dts) l s live call patient others =
    let (n, l1, s1, ran, q, _) = pass-IsOver execute dt e c live call patient.0 others l s in
    let (l2, s2, more, u, _) = all_end execute c e dts l1 s1 live call patient.1 others in
    (l2, s2, ran ++ more, passes n q u, tt)

-- An event that is neither deleted nor excluded runs its callback once its time is over: the passes of time
-- differences that add up to its time left all end, and the callback is among those that ran, whatever the
-- callbacks do to the rest of the program and to the timers, if they start and change no timer that is due
-- within one of these differences, and none but this one removes or changes events of its kind.
pub event_fires :
    {C S : Type 0} (execute : C → S → List (TimedEvent C) → S × List (Command C)) (c : C)
    (e : TimedEvent C) (dt : ℕ) (dts : List ℕ) (l : List (TimedEvent C)) (s : S)
    → is_gone e ≡ false
    → e.callback ≡ some c
    → All (IsPatient execute) (dt ∷ dts)
    → LeavesTo execute c e.obj e.event_type
    → In e l
    → e.curr_time ≤ sum (dt ∷ dts)
    → AllEnd execute (dt ∷ dts) l s (In c)
unfolding is_gone
event_fires execute c e dt [] l s live call patient others here enough =
    let (n, l1, s1, ran, q, out) = pass-IsOver execute dt e c live call patient.0 others l s in
    elim (out (inl here)) [
      | inl i ↦ (l1, s1, ran ++ [], passes n q ended, In-left c ran [] i)
      | inr (left, kept) ↦ absurd (omega (arith, left, enough))
    ]
event_fires execute c e dt (dt' ∷ dts) l s live call patient others here enough =
    let (n, l1, s1, ran, q, out) = pass-IsOver execute dt e c live call patient.0 others l s in
    elim (out (inl here)) [
      | inl i ↦
          let (l2, s2, more, u, _) =
            all_end execute c e (dt' ∷ dts) l1 s1 live call patient.1 others in
          (l2, s2, ran ++ more, passes n q u, In-left c ran more i)
      | inr (left, kept) ↦
          let (l2, s2, more, u, i) =
            event_fires execute c (age dt e) dt' dts l1 s1 live call patient.1 others kept
              (omega (arith, enough)) in
          (l2, s2, ran ++ more, passes n q u, In-right c ran more i)
    ]
