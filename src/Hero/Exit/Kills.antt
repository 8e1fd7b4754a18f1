-- ===== src/Hero/Exit/Kills.antt =====
-- The special kills that `ReqExitGame` of gameserver/DreamHero.cpp remembers.
use dream_heroes.Base.{
  Bool, Bool-cases, List, Option, [], arith, false, has, if◌then◌else◌, inl, inr, none, refl, some,
  ◌++◌, ◌||◌, ◌∷◌, ◌≡◌,
}
use dream_heroes.Base.Int.{ℤ}
use dream_heroes.Base.Map.{Map, assign, find, pair_key, pair_key}
use dream_heroes.Config.{GameConfig}
use dream_heroes.Error.{GameError, error_no, is_no}
use dream_heroes.Hero.{DreamHero, ObjConfig}
use dream_heroes.Hero.Exit.{
  Completed, ExitGameReq, add_kills, exit_completed, exit_error, exit_pay, req_exit_game, same_obj,
}

-- No monster stands twice in the list.
abbrev pub IsKilledOnce : List ObjConfig → Type 0
IsKilledOnce [] = Unit
IsKilledOnce (x ∷ xs) = (has (λ y. same_obj x y) xs ≡ false) × IsKilledOnce xs

-- No section of the map has a monster twice.
abbrev pub HasKills : Map (ℤ × ℤ) (List ObjConfig) → Type 0
HasKills [] = Unit
HasKills ((key, kills) ∷ m) = IsKilledOnce kills × HasKills m

has-append_one :
    (p : ObjConfig → Bool) (xs : List ObjConfig) (k : ObjConfig)
    → has p (xs ++ k ∷ []) ≡ has p xs || p k
has-append_one p [] k = ground arith
has-append_one p (x ∷ xs) k = ground (arith, has-append_one p xs k)

append_one-IsKilledOnce :
    (xs : List ObjConfig) (k : ObjConfig)
    → has (λ x. same_obj x k) xs ≡ false
    → IsKilledOnce xs
    → IsKilledOnce (xs ++ k ∷ [])
append_one-IsKilledOnce [] k h d = (refl, tt)
append_one-IsKilledOnce (x ∷ xs) k h d =
    ground (arith, has-append_one (λ y. same_obj x y) xs k, append_one-IsKilledOnce xs k)

add_kills-IsKilledOnce :
    (kills ks : List ObjConfig) → IsKilledOnce kills → IsKilledOnce (add_kills kills ks)
unfolding add_kills
add_kills-IsKilledOnce kills [] d = d
add_kills-IsKilledOnce kills (k ∷ ks) d = elim (Bool-cases (has (λ x. same_obj x k) kills)) [
  | inl e ↦ rw e (add_kills-IsKilledOnce kills ks d)
  | inr e ↦ rw e (add_kills-IsKilledOnce (kills ++ k ∷ []) ks (append_one-IsKilledOnce kills k e d))
]

assign-HasKills :
    (key : ℤ × ℤ) (kills : List ObjConfig) (m : Map (ℤ × ℤ) (List ObjConfig))
    → IsKilledOnce kills
    → HasKills m
    → HasKills (assign key kills m)
unfolding assign
assign-HasKills key kills [] d h = (d, tt)
assign-HasKills key kills ((j, ks) ∷ m) d h = ground (arith, assign-HasKills key kills m d h.1)

abbrev Found : Option (List ObjConfig) → Type 0
Found none = Unit
Found (some kills) = IsKilledOnce kills

find-Found : (key : ℤ × ℤ) (m : Map (ℤ × ℤ) (List ObjConfig)) → HasKills m → Found (find key m)
unfolding find
find-Found key [] h = tt
find-Found key ((j, ks) ∷ m) h = elim (Bool-cases (pair_key.beq key j)) [
  | inl e ↦ rw e h.0
  | inr e ↦ rw e (find-Found key m h.1)
]

exit_pay-HasKills :
    (h : DreamHero) (msg : ExitGameReq) (done : Completed)
    → HasKills h.special_kills
    → HasKills (exit_pay h msg done).special_kills
unfolding exit_pay
exit_pay-HasKills h msg done d =
    by_case (find key h.special_kills) (find-Found key h.special_kills d)
  where
    key : ℤ × ℤ
    key = (h.current_chapter, h.current_section)

    by_case :
        (o : Option (List ObjConfig))
        → Found o
        → HasKills (
            assign key
              (add_kills
                (elim o as (λ x. List ObjConfig) [ none ↦ [] | some kills ↦ kills ])
                msg.special_kill_list)
              h.special_kills)
    by_case none f =
        assign-HasKills key _ h.special_kills (add_kills-IsKilledOnce [] msg.special_kill_list tt) d
    by_case (some kills) f =
        assign-HasKills key _ h.special_kills (add_kills-IsKilledOnce kills msg.special_kill_list f)
          d

-- Leaving a section, with any report, keeps the remembered special kills free of repeats in every section:
-- a monster that the report names again, or names twice, is not entered again.
pub req_exit_game-HasKills :
    (c : GameConfig) (h : DreamHero) (msg : ExitGameReq)
    → HasKills h.special_kills
    → HasKills (req_exit_game c h msg).0.special_kills
unfolding req_exit_game
req_exit_game-HasKills c h msg d = by_error (exit_error h msg)
  where
    by_error :
        (e : GameError)
        → HasKills (if is_no e then exit_pay h msg (exit_completed c h msg) else h).special_kills
    by_error error_no = exit_pay-HasKills h msg (exit_completed c h msg) d
    by_error e = d
