-- ===== src/Hero/Exit/Accounting.antt =====
-- The tasks and the gold after `ReqExitGame` of gameserver/DreamHero.cpp.
use dream_heroes.Base.{
  List, Option, [], ap, arith, if◌then◌else◌, inl, inr, length, none, refl, some, suc, ℕ, ◌++◌, ◌∙◌,
  ◌∷◌, ◌≡◌, ◌≢◌, ◌⊎◌,
}
use dream_heroes.Base.Int.{int_laws, ltb_ℤ, pos, ℤ, ◌+ℤ◌}
use dream_heroes.Config.{GameConfig}
use dream_heroes.Error.{GameError, error_no}
use dream_heroes.Hero.{DreamHero, IntPair, TaskInfo}
use dream_heroes.Hero.Exit.{
  Completed, ExitGameAck, ExitGameReq, add_gifts, complete_loop, complete_step, complete_task,
  exit_completed, exit_error, req_exit_game, update_task, update_tasks,
}
use dream_heroes.Hero.Tasks.Held.{give_up-OneLess}

length-update_task :
    (entry : TaskInfo) (ts : List TaskInfo) → length (update_task entry ts) ≡ length ts
unfolding update_task
length-update_task entry [] = refl
length-update_task entry (t ∷ ts) = ground (arith, length-update_task entry ts)

length-update_tasks : (entries ts : List TaskInfo) → length (update_tasks entries ts) ≡ length ts
unfolding update_tasks
length-update_tasks [] ts = refl
length-update_tasks (entry ∷ entries) ts =
    omega (arith, length-update_tasks entries (update_task entry ts), length-update_task entry ts)

-- A completed task is taken out of the list.
abbrev Shorter : List TaskInfo → Option (ℤ × List TaskInfo) → Type 0
Shorter ts none = Unit
Shorter ts (some (gold, rest)) = length ts ≡ suc (length rest)

complete_task-Shorter :
    (c : GameConfig) (id : ℤ) (ts : List TaskInfo) → Shorter ts (complete_task c id ts)
unfolding complete_task
complete_task-Shorter c id ts = ground (arith, give_up-OneLess id ts)

-- The completed tasks and the tasks that are left.
abbrev held : Completed → ℤ
held s = s.count +ℤ pos (length s.tasks)

count_one_more : (a : ℤ) (n : ℕ) → a +ℤ pos 1 +ℤ pos n ≡ a +ℤ pos (suc n)
count_one_more a n = omega int_laws

complete_step-held :
    (c : GameConfig) (id : ℤ) (s : Completed) → held (complete_step c id s) ≡ held s
unfolding complete_step
complete_step-held c id s =
    by_case (complete_task c id s.tasks) (complete_task-Shorter c id s.tasks)
  where
    by_case :
        (o : Option (ℤ × List TaskInfo))
        → Shorter s.tasks o
        → held (elim o [
          | none ↦ record s { gift = s.gift ++ record { number_1 = id; number_2 = pos 0 } ∷ [] }
          | some (gold, rest) ↦ record {
            tasks = rest;
            count = s.count +ℤ pos 1;
            gift = s.gift ++ record { number_1 = id; number_2 = gold } ∷ [];
          }
        ])
          ≡ held s
    by_case none h = refl
    by_case (some (gold, rest)) h = rw h (count_one_more s.count (length rest))

complete_loop-held :
    (c : GameConfig) (ids : List ℤ) (s : Completed) → held (complete_loop c ids s) ≡ held s
unfolding complete_loop
complete_loop-held c [] s = refl
complete_loop-held c (id ∷ ids) s =
    complete_loop-held c ids (complete_step c id s) ∙ complete_step-held c id s

-- The sum of the gifts in an answer.
abbrev pub gift_sum : List IntPair → ℤ
gift_sum [] = pos 0
gift_sum (p ∷ ps) = p.number_2 +ℤ gift_sum ps

add_gifts_lem : (ps : List IntPair) (gold : ℤ) → add_gifts gold ps ≡ gold +ℤ gift_sum ps
unfolding add_gifts
add_gifts_lem [] gold = omega int_laws
add_gifts_lem (p ∷ ps) gold = add_gifts_lem ps (gold +ℤ p.number_2) ∙ omega int_laws

-- What leaving a section has done, by its error code.
abbrev pub ExitOutcome : DreamHero → ExitGameReq → DreamHero → ExitGameAck → Type 0
ExitOutcome h msg h' ack =
    ((ack.error ≡ error_no)
      × (h'.complete_task_count +ℤ pos (length h'.tasks)
          ≡ h.complete_task_count +ℤ pos (length h.tasks))
      × (h'.gold
          ≡ (if ltb_ℤ h.gold (pos 0) then pos 0 else h.gold) +ℤ msg.gold +ℤ gift_sum ack.task_gift)
      × (ack.current_gold ≡ h'.gold))
    ⊎ ((ack.error ≢ error_no) × (h'.info ≡ h.info) × (ack.task_gift ≡ []))

exit_completed-held :
    (c : GameConfig) (h : DreamHero) (msg : ExitGameReq)
    → held (exit_completed c h msg) ≡ h.complete_task_count +ℤ pos (length h.tasks)
unfolding exit_completed
exit_completed-held c h msg =
    complete_loop-held c msg.complete_tasks _
    ∙ ap (λ n. h.complete_task_count +ℤ pos n) (length-update_tasks msg.task_infos h.tasks)

exit_by_error :
    (c : GameConfig) (h : DreamHero) (msg : ExitGameReq) (e : GameError)
    → exit_error h msg ≡ e
    → let (h', ack) = req_exit_game c h msg in ExitOutcome h msg h' ack
unfolding req_exit_game
exit_by_error c h msg error_no q =
    rw (q, req_exit_game) (inl (refl, exit_completed-held c h msg, add_gifts_lem _ _, refl))
exit_by_error c h msg e q = rw (q, req_exit_game) (inr (λ p. cc, refl, refl))

-- A section that is left either is settled or refused. Settled, every task that the count of completed
-- tasks gains is one task less in the list, and the gold is the old gold, or zero if it was below zero,
-- with the reported gold and the gifts of the answer. Refused, no datum of the hero changes.
pub exit_game_accounting :
    (c : GameConfig) (h : DreamHero) (msg : ExitGameReq)
    → let (h', ack) = req_exit_game c h msg in ExitOutcome h msg h' ack
exit_game_accounting c h msg = exit_by_error c h msg (exit_error h msg) refl
