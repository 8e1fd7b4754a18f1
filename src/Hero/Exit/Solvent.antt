-- ===== src/Hero/Exit/Solvent.antt =====
-- The balances after `ReqExitGame` of gameserver/DreamHero.cpp.
use dream_heroes.Base.{
  All, Bool-cases, List, Option, [], arith, if◌then◌else◌, inl, inr, none, some, ◌++◌, ◌∷◌,
}
use dream_heroes.Base.Int.{+ℤ_parts, pos, ℤ, ◌+ℤ◌, ◌==ℤ◌, ◌≤ℤ◌}
use dream_heroes.Base.Map.{Map, find, int_key}
use dream_heroes.Config.{GameConfig, TaskConfig, get_map_task}
use dream_heroes.Error.{GameError, error_no, is_no}
use dream_heroes.Hero.{DreamHero, IntPair, IsSolvent, TaskInfo}
use dream_heroes.Hero.Exit.{
  Completed, ExitGameReq, add_gifts, complete_loop, complete_step, complete_task, exit_completed,
  exit_error, exit_gold, exit_info, exit_pay, req_exit_game,
}
use dream_heroes.Hero.Tasks.{give_up}
use mathlib.Core.Option

-- No task takes gold.
abbrev pub GivesGold : Map ℤ TaskConfig → Type 0
GivesGold [] = Unit
GivesGold ((id, config) ∷ m) = (pos 0 ≤ℤ config.gift_gold) × GivesGold m

abbrev Gift : Option TaskConfig → Type 0
Gift none = Unit
Gift (some config) = pos 0 ≤ℤ config.gift_gold

find-Gift : (id : ℤ) (m : Map ℤ TaskConfig) → GivesGold m → Gift (find id m)
unfolding find
find-Gift id [] g = tt
find-Gift id ((i, config) ∷ m) g = elim (Bool-cases (id ==ℤ i)) [
  | inl e ↦ rw e g.0
  | inr e ↦ rw e (find-Gift id m g.1)
]

-- The gifts of an answer.
abbrev Gifts : List IntPair → Type 0
Gifts = All λ (p : IntPair). pos 0 ≤ℤ p.number_2

Gifts-append_one :
    (ps : List IntPair) (p : IntPair) → Gifts ps → pos 0 ≤ℤ p.number_2 → Gifts (ps ++ p ∷ [])
Gifts-append_one [] p g h = (h, tt)
Gifts-append_one (q ∷ ps) p g h = (g.0, Gifts-append_one ps p g.1 h)

abbrev Given : Option (ℤ × List TaskInfo) → Type 0
Given none = Unit
Given (some (gold, rest)) = pos 0 ≤ℤ gold

complete_task-Given :
    (c : GameConfig) (id : ℤ) (ts : List TaskInfo)
    → GivesGold c.tasks
    → Given (complete_task c id ts)
unfolding complete_task get_map_task
complete_task-Given c id ts g = by_case (find id c.tasks) (give_up id ts) (find-Gift id c.tasks g)
  where
    by_case :
        (o : Option TaskConfig) (left : Option (List TaskInfo))
        → Gift o
        → Given (elim o as (λ x. Option (ℤ × List TaskInfo)) [
          | none ↦ none
          | some config ↦ Option.map (λ rest. (config.gift_gold, rest)) left
        ])
    by_case none left h = tt
    by_case (some config) none h = tt
    by_case (some config) (some rest) h = h

complete_step-Gifts :
    (c : GameConfig) (id : ℤ) (s : Completed)
    → GivesGold c.tasks
    → Gifts s.gift
    → Gifts (complete_step c id s).gift
unfolding complete_step
complete_step-Gifts c id s g h =
    by_case (complete_task c id s.tasks) (complete_task-Given c id s.tasks g)
  where
    by_case :
        (o : Option (ℤ × List TaskInfo))
        → Given o
        → Gifts
            (elim o as (λ x. Completed) [
              | none ↦ record s { gift = s.gift ++ record { number_1 = id; number_2 = pos 0 } ∷ [] }
              | some (gold, rest) ↦ record {
                tasks = rest;
                count = s.count +ℤ pos 1;
                gift = s.gift ++ record { number_1 = id; number_2 = gold } ∷ [];
              }
            ]).gift
    by_case none k = Gifts-append_one s.gift _ h (omega arith)
    by_case (some (gold, rest)) k = Gifts-append_one s.gift _ h k

complete_loop-Gifts :
    (c : GameConfig) (ids : List ℤ) (s : Completed)
    → GivesGold c.tasks
    → Gifts s.gift
    → Gifts (complete_loop c ids s).gift
unfolding complete_loop
complete_loop-Gifts c [] s g h = h
complete_loop-Gifts c (id ∷ ids) s g h =
    complete_loop-Gifts c ids (complete_step c id s) g (complete_step-Gifts c id s g h)

add_gifts-nonneg :
    (gold : ℤ) (ps : List IntPair) → pos 0 ≤ℤ gold → Gifts ps → pos 0 ≤ℤ add_gifts gold ps
unfolding add_gifts
add_gifts-nonneg gold [] p g = p
add_gifts-nonneg gold (q ∷ ps) p g =
    add_gifts-nonneg (gold +ℤ q.number_2) ps (omega (arith, p, g.0, +ℤ_parts gold q.number_2)) g.1

exit_pay-IsSolvent :
    (c : GameConfig) (h : DreamHero) (msg : ExitGameReq)
    → GivesGold c.tasks
    → pos 0 ≤ℤ msg.gold
    → IsSolvent h
    → IsSolvent (exit_pay h msg (exit_completed c h msg))
unfolding exit_pay exit_info exit_gold exit_completed
exit_pay-IsSolvent c h msg g p s = (
  add_gifts-nonneg _ _ (ground (arith, +ℤ_parts h.gold msg.gold))
      (complete_loop-Gifts c msg.complete_tasks _ g tt),
  s.1,
  s.2,
)

pub req_exit_game-IsSolvent :
    (c : GameConfig) (h : DreamHero) (msg : ExitGameReq)
    → GivesGold c.tasks
    → pos 0 ≤ℤ msg.gold
    → IsSolvent h
    → IsSolvent (req_exit_game c h msg).0
unfolding req_exit_game
req_exit_game-IsSolvent c h msg g p s = by_error (exit_error h msg)
  where
    by_error :
        (e : GameError) → IsSolvent (if is_no e then exit_pay h msg (exit_completed c h msg) else h)
    by_error error_no = exit_pay-IsSolvent c h msg g p s
    by_error e = s
