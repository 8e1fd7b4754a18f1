-- ===== src/Sessions/Commands/Level.antt =====
-- Who is an administrator, and what others can do.
use dream_heroes.Base.{
  Bool, Bool-cases, Bytes, List, Option, [], ap, arith, false, inl, inr, none, refl, some, subst,
  sym, true, ◌>>=◌, ◌>>=◌, ◌∙◌, ◌∷◌, ◌≡◌,
}
use dream_heroes.Base.Int.{ltb_ℤ, pos}
use dream_heroes.Config.{Env, GameConfig}
use dream_heroes.Hero.{DreamHero}
use dream_heroes.Hero.Daily.Laws.{reset_daily_game-level}
use dream_heroes.Hero.Instance.{enter_game}
use dream_heroes.Hero.Instance.Enter.{enter_game-level}
use dream_heroes.Hero.Rewards.{
  load_from_config, req_modify_gold, req_remove_all_special_creature_list, req_reset_map,
  req_set_special_creature_list,
}
use dream_heroes.Hero.Tasks.{req_modify_task_complete_count, req_replace_task}
use dream_heroes.Hero.Tasks.Level.{replace_task-level}
use dream_heroes.Rank.{RankManager}
use dream_heroes.Sessions.Commands.{
  AdminCommand, clear_rank_list, cmd_clear_daily_rank_list, cmd_enter_game, cmd_modify_gold,
  cmd_modify_jewel, cmd_modify_spirit, cmd_modify_task_complete_count,
  cmd_remove_special_creature_list_his, cmd_replace_task, cmd_reset_concern_wei_xin,
  cmd_reset_daily_game, cmd_reset_daily_lottery, cmd_reset_game, cmd_reset_map,
  cmd_set_special_creature_his, command, commands, is_admin, modify_jewel, modify_spirit, perform,
  reset_daily_lottery, reset_wei_xin, with_ranks,
}

-- Of a hero and a table: who is an administrator stays, and for another player all stays. Only an administrator
-- can make the code step past an end.
abbrev pub KeepsLevel : DreamHero → RankManager → Option (DreamHero × RankManager) → Type 0
KeepsLevel h r none = is_admin h ≡ true
KeepsLevel h r (some (h', r')) =
    (is_admin h' ≡ is_admin h) × (is_admin h ≡ false → (h' ≡ h) × (r' ≡ r))

-- A result, where there is one, of an administrator.
abbrev IsAdmin : Option (DreamHero × RankManager) → Type 0
IsAdmin none = Bool
IsAdmin (some p) = is_admin p.0 ≡ true

same_level : (h h' : DreamHero) → h'.gm_level ≡ h.gm_level → is_admin h ≡ true → is_admin h' ≡ true
unfolding is_admin
same_level h h' e admin = ap (ltb_ℤ (pos 0)) e ∙ admin

perform-IsAdmin :
    (c : GameConfig) (env : Env) (name : Bytes) (cmd : AdminCommand) (h : DreamHero)
    (r : RankManager)
    → is_admin h ≡ true
    → IsAdmin (perform c env name cmd h r)
unfolding perform with_ranks is_admin load_from_config modify_jewel modify_spirit reset_wei_xin
    reset_daily_lottery clear_rank_list req_reset_map req_modify_gold req_set_special_creature_list
    req_remove_all_special_creature_list req_modify_task_complete_count
perform-IsAdmin c env name (cmd_enter_game chapter section) h r a =
    same_level h (enter_game c h chapter section true).0 (enter_game-level c h chapter section true)
      a
perform-IsAdmin c env name (cmd_reset_map chapter section) h r a = a
perform-IsAdmin c env name cmd_reset_concern_wei_xin h r a = a
perform-IsAdmin c env name cmd_reset_game h r a = refl
perform-IsAdmin c env name (cmd_modify_gold count) h r a = a
perform-IsAdmin c env name (cmd_modify_jewel count) h r a = a
perform-IsAdmin c env name (cmd_modify_spirit count) h r a = a
perform-IsAdmin c env name (cmd_replace_task count) h r a =
    same_level h (req_replace_task c env h count).0 (replace_task-level c env h count) a
perform-IsAdmin c env name (cmd_modify_task_complete_count count) h r a = a
perform-IsAdmin c env name (cmd_set_special_creature_his id status) h r a = a
perform-IsAdmin c env name cmd_remove_special_creature_list_his h r a = a
perform-IsAdmin c env name cmd_reset_daily_lottery h r a = a
perform-IsAdmin c env name cmd_reset_daily_game h r a = elim (reset_daily_game-level r h) [
  | inl gone ↦ subst IsAdmin (sym gone) true
  | inr (p, here, level) ↦ subst IsAdmin (sym here) (same_level h p.0 level a)
]
perform-IsAdmin c env name cmd_clear_daily_rank_list h r a = a

then_commands :
    (c : GameConfig) (env : Env) (l : List (AdminCommand × Bytes)) (h : DreamHero) (r : RankManager)
    (o : Option (DreamHero × RankManager))
    → is_admin h ≡ true
    → IsAdmin o
    → ((h' : DreamHero) (r' : RankManager) → KeepsLevel h' r' (commands c env l h' r'))
    → KeepsLevel h r (o >>= λ p. commands c env l p.0 p.1)
then_commands c env l h r none a k rest = a
then_commands c env l h r (some (h', r')) a k rest =
    admin_kept (commands c env l h' r') (rest h' r')
  where
    admin_kept : (o : Option (DreamHero × RankManager)) → KeepsLevel h' r' o → KeepsLevel h r o
    admin_kept none q = a
    admin_kept (some p) q = (q.0 ∙ k ∙ sym a, λ e. absurd (ground (arith, a, e)))

-- Whatever commands come from a session: a player who is no administrator changes neither the hero nor the table of
-- ranks, and every command has a result; and no command, a reset of the game included, makes another player of an
-- administrator or an administrator of another player. The command for the levels of other heroes is left out.
pub commands-KeepsLevel :
    (c : GameConfig) (env : Env) (l : List (AdminCommand × Bytes)) (h : DreamHero) (r : RankManager)
    → KeepsLevel h r (commands c env l h r)
unfolding commands command
commands-KeepsLevel c env [] h r = (refl, λ e. (refl, refl))
commands-KeepsLevel c env ((cmd, name) ∷ l) h r = elim (Bool-cases (is_admin h)) [
  | inl admin ↦ rw admin (
      then_commands c env l h r (perform c env name cmd h r) admin
        (perform-IsAdmin c env name cmd h r admin) (commands-KeepsLevel c env l))
  | inr other ↦ rw other (commands-KeepsLevel c env l h r)
]
