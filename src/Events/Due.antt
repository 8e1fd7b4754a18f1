-- ===== src/Events/Due.antt =====
-- What the commands of callbacks, in common/event_table_object.cpp, do to the events that are due.
use dream_heroes.Base.{
  All, Bool, List, [], ap, arith, if◌then◌else◌, inl, inr, leb, map, not, refl, suc, true, ℕ, ◌&&◌,
  ◌++◌, ◌+◌, ◌-◌, ◌<◌, ◌∙◌, ◌∷◌, ◌≡◌, ◌≤◌, ◌⊎◌,
}
use dream_heroes.Events.{
  Command, TimedEvent, add_event, added, event_modify_time_and_time_left, event_remove, is_gone,
  modify_event_time_and_time_left, obey, remove_events, touch, touch_all,
}

-- The element stands in the list.
abbrev pub In : {A : Type 0} → A → List A → Type 0
In a [] = ⊥
In a (x ∷ xs) = (x ≡ a) ⊎ In a xs

pub In-left : {A : Type 0} (a : A) (xs ys : List A) → In a xs → In a (xs ++ ys)
In-left a [] ys h = absurd h
In-left a (x ∷ xs) ys (inl e) = inl e
In-left a (x ∷ xs) ys (inr h) = inr (In-left a xs ys h)

pub In-right : {A : Type 0} (a : A) (xs ys : List A) → In a ys → In a (xs ++ ys)
In-right a [] ys h = h
In-right a (x ∷ xs) ys h = inr (In-right a xs ys h)

pub In-map : {A : Type 0} (f : A → A) (a : A) (xs : List A) → f a ≡ a → In a xs → In a (map f xs)
In-map f a [] e h = absurd h
In-map f a (x ∷ xs) e (inl q) = inl (ap f q ∙ e)
In-map f a (x ∷ xs) e (inr h) = inr (In-map f a xs e h)

module _ {C : Type 0} where
  -- What the command starts or changes is not due within `dt`.
  abbrev pub IsLater : ℕ → Command C → Type 0
  IsLater dt (add_event new) = dt < new.curr_time
  IsLater dt (remove_events o type) = Unit
  IsLater dt (modify_event_time_and_time_left o type time) = dt < time

  -- The command does not concern the events of this kind of this object.
  abbrev pub Spares : ℕ → ℕ → Command C → Type 0
  Spares o type x = (e : TimedEvent C) → e.obj ≡ o → e.event_type ≡ type → touch x e ≡ e

  -- `ev->currTime -= time_difference`
  abbrev pub age : ℕ → TimedEvent C → TimedEvent C
  age dt e = record e { curr_time = e.curr_time - dt }

  unfoldable pub is_due : ℕ → TimedEvent C → Bool
  is_due dt e = not (is_gone e) && leb e.curr_time dt

  unfoldable pub due : ℕ → List (TimedEvent C) → ℕ
  due dt [] = 0
  due dt (e ∷ l) = let rest = due dt l in if is_due dt e then suc rest else rest

  touch-due :
      (dt : ℕ) (x : Command C) (e : TimedEvent C)
      → IsLater dt x
      → is_due dt (touch x e) ≡ true
      → is_due dt e ≡ true
  unfolding touch is_due event_remove event_modify_time_and_time_left is_gone
  touch-due dt (add_event new) e l h = h
  touch-due dt (remove_events o type) e l h = ground (arith, h)
  touch-due dt (modify_event_time_and_time_left o type time) e l h = ground (arith, l, h)

  due-map :
      (dt : ℕ) (x : Command C) (l : List (TimedEvent C))
      → IsLater dt x
      → due dt (map (touch x) l) ≤ due dt l
  unfolding due
  due-map dt x [] later = omega arith
  due-map dt x (e ∷ l) later = ground (arith, touch-due dt x e later, due-map dt x l later)

  due-append : (dt : ℕ) (l m : List (TimedEvent C)) → due dt (l ++ m) ≡ due dt l + due dt m
  unfolding due
  due-append dt [] m = omega arith
  due-append dt (e ∷ l) m = ground (arith, due-append dt l m)

  due-added : (dt : ℕ) (x : Command C) → IsLater dt x → due dt (added x) ≡ 0
  unfolding due added is_due
  due-added dt (add_event new) later = ground (arith, later)
  due-added dt (remove_events o type) later = refl
  due-added dt (modify_event_time_and_time_left o type time) later = refl

  pub due-obey :
      (dt : ℕ) (xs : List (Command C)) (l : List (TimedEvent C))
      → All (IsLater dt) xs
      → due dt (obey xs l) ≤ due dt l
  unfolding obey
  due-obey dt [] l later = omega arith
  due-obey dt (x ∷ xs) l later = omega (
    arith,
    due-obey dt xs (map (touch x) l ++ added x) later.1,
    due-append dt (map (touch x) l) (added x),
    due-map dt x l later.0,
    due-added dt x later.0,
  )

  pub touch_all-spared :
      (xs : List (Command C)) (e : TimedEvent C)
      → All (Spares e.obj e.event_type) xs
      → touch_all xs e ≡ e
  unfolding touch_all
  touch_all-spared [] e h = refl
  touch_all-spared (x ∷ xs) e h = ap (touch_all xs) (h.0 e refl refl) ∙ touch_all-spared xs e h.1

  pub In-obey :
      (xs : List (Command C)) (e : TimedEvent C) (l : List (TimedEvent C))
      → All (Spares e.obj e.event_type) xs
      → In e l
      → In e (obey xs l)
  unfolding obey
  In-obey [] e l h i = i
  In-obey (x ∷ xs) e l h i =
      In-obey xs e (map (touch x) l ++ added x) h.1
        (In-left e (map (touch x) l) (added x) (In-map (touch x) e l (h.0 e refl refl) i))
