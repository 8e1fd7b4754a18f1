-- ===== src/Events/Tests.antt =====
-- A timer of 50 among others, in two passes of 30.
use dream_heroes.Base.{List, [], arith, false, inl, inr, refl, some, true, ℕ, ◌+◌, ◌∷◌, ◌≡◌}
use dream_heroes.Base.Int.{pos}
use dream_heroes.Events.{Command, TimedEvent, add_event, is_gone, touch}
use dream_heroes.Events.Due.{In}
use dream_heroes.Events.Fires.{AllEnd, LeavesTo, event_fires}

abbrev sample_event : ℕ → ℕ → ℕ → TimedEvent ℕ
sample_event o callback time = record {
  obj = o;
  callback = some callback;
  event_type = 4;
  not_in_world = false;
  deletes_object = true;
  ms_time = time;
  curr_time = time;
  repeats = pos 1;
  deleted = false;
}

-- Every callback starts another timer.
abbrev sample_execute : ℕ → ℕ → List (TimedEvent ℕ) → ℕ × List (Command ℕ)
sample_execute k s l = (s + 1, add_event (sample_event 9 k 1000) ∷ [])

sample_alive : is_gone (sample_event 1 7 50) ≡ false
unfolding is_gone
sample_alive = refl

sample_spared : LeavesTo sample_execute 7 1 4
unfolding touch
sample_spared = λ k s l. inr (λ e p q. refl, tt)

event_fires_example :
    AllEnd sample_execute (30 ∷ 30 ∷ []) (sample_event 2 8 10 ∷ sample_event 1 7 50 ∷ []) 0 (In 7)
event_fires_example =
    event_fires sample_execute 7 (sample_event 1 7 50) 30 (30 ∷ [])
      (sample_event 2 8 10 ∷ sample_event 1 7 50 ∷ []) 0 sample_alive refl
      ((λ k s l. (omega arith, tt)), ((λ k s l. (omega arith, tt)), tt)) sample_spared
      (inr (inl refl)) (omega arith)
