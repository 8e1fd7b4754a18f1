-- ===== src/Hero/Exit/Progress.antt =====
-- The records of passed sections after `ReqExitGame` of gameserver/DreamHero.cpp.
use dream_heroes.Base.{
  Bool, List, [], arith, false, if◌then◌else◌, inl, refl, true, ◌&&◌, ◌∷◌, ◌≡◌, ◌⊎◌,
}
use dream_heroes.Base.Int.{==ℤ_iff, pos, ℤ, ◌+ℤ◌, ◌==ℤ◌}
use dream_heroes.Config.{GameConfig}
use dream_heroes.Error.{GameError, error_no}
use dream_heroes.Hero.{DreamHero, IntPair}
use dream_heroes.Hero.Exit.{ExitGameReq, advance_records, exit_error, exit_info, req_exit_game}

-- The records after a report on this section: each stands where it stood, or the report was a success and
-- the record is of this chapter and moves by one, to this section.
abbrev pub Advances : ℤ → ℤ → Bool → List IntPair → List IntPair → Type 0
Advances chapter section success [] [] = Unit
Advances chapter section success [] (s ∷ ss) = ⊥
Advances chapter section success (r ∷ rs) [] = ⊥
Advances chapter section success (r ∷ rs) (s ∷ ss) =
    ((s ≡ r)
      ⊎ ((success ≡ true)
          × (r.number_1 ≡ chapter)
          × (s.number_1 ≡ chapter)
          × (s.number_2 ≡ section)
          × (section ≡ r.number_2 +ℤ pos 1)))
    × Advances chapter section success rs ss

Advances-same :
    (chapter section : ℤ) (success : Bool) (rs : List IntPair)
    → Advances chapter section success rs rs
Advances-same chapter section success [] = tt
Advances-same chapter section success (r ∷ rs) =
    (inl refl, Advances-same chapter section success rs)

advance_records-Advances :
    (chapter section : ℤ) (rs : List IntPair)
    → Advances chapter section true rs (advance_records chapter section rs)
unfolding advance_records
advance_records-Advances chapter section [] = tt
advance_records-Advances chapter section (r ∷ rs) = (
  moved ((r.number_1 ==ℤ chapter) && (section ==ℤ (r.number_2 +ℤ pos 1))) refl,
  advance_records-Advances chapter section rs,
)
  where
    moved :
        (b : Bool)
        → ((r.number_1 ==ℤ chapter) && (section ==ℤ (r.number_2 +ℤ pos 1))) ≡ b
        → let s = if b then record r { number_2 = section } else r in
          (s ≡ r)
          ⊎ ((true ≡ true)
              × (r.number_1 ≡ chapter)
              × (s.number_1 ≡ chapter)
              × (s.number_2 ≡ section)
              × (section ≡ r.number_2 +ℤ pos 1))
    moved false e = inl refl
    moved true e = ground (arith, ==ℤ_iff r.number_1 chapter, ==ℤ_iff section (r.number_2 +ℤ pos 1))

exit_records :
    (c : GameConfig) (h : DreamHero) (msg : ExitGameReq) (e : GameError) (b : Bool)
    → exit_error h msg ≡ e
    → msg.success ≡ b
    → Advances msg.chapter_id msg.section_id b h.records (req_exit_game c h msg).0.records
unfolding req_exit_game exit_info
exit_records c h msg error_no true p q =
    rw (p, q, req_exit_game, exit_info)
      (advance_records-Advances msg.chapter_id msg.section_id h.records)
exit_records c h msg error_no false p q =
    rw (p, q, req_exit_game, exit_info)
      (Advances-same msg.chapter_id msg.section_id false h.records)
exit_records c h msg e b p q =
    rw (p, req_exit_game) (Advances-same msg.chapter_id msg.section_id b h.records)

-- Leaving a section never skips a section: a record of passed sections stays as it was, or, if the report
-- is a success and the record is of the reported chapter, moves by one to the reported section. No record
-- appears, goes away or changes its chapter.
pub exit_game-Advances :
    (c : GameConfig) (h : DreamHero) (msg : ExitGameReq)
    → Advances msg.chapter_id msg.section_id msg.success h.records (req_exit_game c h msg).0.records
exit_game-Advances c h msg = exit_records c h msg (exit_error h msg) msg.success refl refl
