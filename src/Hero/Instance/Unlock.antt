-- ===== src/Hero/Instance/Unlock.antt =====
-- `ReqUnlockChapter` of gameserver/DreamHero.cpp, and a description that does not follow the loop.
use dream_heroes.Base.{
  Bool, List, Option, [], arith, false, has, if◌then◌else◌, inl, inr, none, not, refl, some, true,
  ◌&&◌, ◌++◌, ◌||◌, ◌∷◌, ◌≡◌, ◌≢◌, ◌⊎◌,
}
use dream_heroes.Base.Int.{leb_ℤ, pos, ℤ, ◌-ℤ◌, ◌==ℤ◌, ◌≤ℤ◌, -ℤ_parts}
use dream_heroes.Config.{ChapterConfig, GameConfig, get_chapter_config_info}
use dream_heroes.Error.{
  GameError, error_no, unlock_chapter_failed_not_found_the_unlock_chapter,
  unlock_chapter_failed_the_required_section_not_pass,
}
use dream_heroes.Hero.{DreamHero, IntPair}
use dream_heroes.Hero.Instance.{UnlockChapterAck, req_unlock_chapter, unlock_run, unlock_scan}

-- The hero has a record of the chapter.
abbrev pub has_record : ℤ → List IntPair → Bool
has_record chapter = has λ r. r.number_1 ==ℤ chapter

-- A record shows that the required section is passed.
abbrev pub passed_required : ChapterConfig → List IntPair → Bool
passed_required config =
    has λ r.
      (config.required_chapter_id ==ℤ r.number_1) && leb_ℤ config.required_section_id r.number_2

-- Everything that an unlocking needs.
abbrev pub can_unlock : ChapterConfig → DreamHero → ℤ → Bool
can_unlock config h chapter_id =
    leb_ℤ config.require_gold h.gold
    && leb_ℤ config.required_task_complete_count h.complete_task_count
    && passed_required config h.records
    && not (has_record chapter_id h.records)

-- The loop in one equation: it stops at a record of the chapter, and else looks for a passed section.
unlock_scan_lem :
    (config : ChapterConfig) (chapter_id : ℤ) (rs : List IntPair) (e : GameError)
    → unlock_scan config chapter_id rs e ≡ (
        if has_record chapter_id rs
        then none
        else some (if passed_required config rs then error_no else e))
unfolding unlock_scan
unlock_scan_lem config chapter_id [] e = refl
unlock_scan_lem config chapter_id (r ∷ rs) e =
    ground
      (arith, unlock_scan_lem config chapter_id rs error_no, unlock_scan_lem config chapter_id rs e)

-- The error code of an answer, if one is sent.
abbrev pub sent_error : Option UnlockChapterAck → Option GameError
sent_error none = none
sent_error (some ack) = some ack.error

-- What the request has done.
abbrev pub UnlockOutcome :
    DreamHero → ℤ → DreamHero → Option GameError → Option ChapterConfig → Type 0
UnlockOutcome h id h' error none =
    (h' ≡ h) × (error ≡ some unlock_chapter_failed_not_found_the_unlock_chapter)
UnlockOutcome h id h' error (some config) =
    ((can_unlock config h id ≡ true)
      × (h'.gold ≡ h.gold -ℤ config.require_gold)
      × (pos 0 ≤ℤ h'.gold)
      × (h'.records ≡ h.records ++ record { number_1 = id; number_2 = pos 0 } ∷ [])
      × (error ≡ some error_no))
    ⊎ ((can_unlock config h id ≡ false) × (h' ≡ h) × (error ≢ some error_no))

unlock_found :
    (c : GameConfig) (h : DreamHero) (id : ℤ) (o : Option ChapterConfig)
    → get_chapter_config_info c id ≡ o
    → let (h', ack) = req_unlock_chapter c h id in UnlockOutcome h id h' (sent_error ack) o
unfolding req_unlock_chapter
unlock_found c h id none e = rw (e, req_unlock_chapter, unlock_run) (refl, refl)
unlock_found c h id (some config) e = ground (
  arith,
  unlock_scan_lem config id h.records unlock_chapter_failed_the_required_section_not_pass,
  -ℤ_parts h.gold config.require_gold,
)

-- A chapter that the configuration has is unlocked exactly when the hero has completed the required tasks,
-- has passed the required section, has no record of the chapter and can pay for it; then the gold falls by
-- the price, not below zero, and a record of the chapter at section zero is added. In every other case the
-- hero stays as it was and no success is answered.
pub unlock_chapter_outcome :
    (c : GameConfig) (h : DreamHero) (chapter_id : ℤ)
    → let (h', ack) = req_unlock_chapter c h chapter_id in
      UnlockOutcome h chapter_id h' (sent_error ack) (get_chapter_config_info c chapter_id)
unlock_chapter_outcome c h chapter_id =
    unlock_found c h chapter_id (get_chapter_config_info c chapter_id) refl

-- No chapter has two records.
abbrev pub IsOnePerChapter : List IntPair → Type 0
IsOnePerChapter [] = Unit
IsOnePerChapter (r ∷ rs) = (has_record r.number_1 rs ≡ false) × IsOnePerChapter rs

has_record-append :
    (a : ℤ) (rs : List IntPair) (r : IntPair)
    → has_record a (rs ++ r ∷ []) ≡ (has_record a rs || (r.number_1 ==ℤ a))
has_record-append a [] r = ground arith
has_record-append a (x ∷ rs) r = ground (arith, has_record-append a rs r)

IsOnePerChapter-append :
    (rs : List IntPair) (r : IntPair)
    → IsOnePerChapter rs
    → has_record r.number_1 rs ≡ false
    → IsOnePerChapter (rs ++ r ∷ [])
IsOnePerChapter-append [] r d n = (refl, tt)
IsOnePerChapter-append (x ∷ rs) r d n =
    ground (arith, IsOnePerChapter-append rs r d.1, has_record-append x.number_1 rs r)

-- Unlocking keeps the records of different chapters: it never adds a second record of a chapter.
pub unlock_chapter-IsOnePerChapter :
    (c : GameConfig) (h : DreamHero) (chapter_id : ℤ)
    → IsOnePerChapter h.records
    → IsOnePerChapter (req_unlock_chapter c h chapter_id).0.records
unlock_chapter-IsOnePerChapter c h chapter_id d =
    by_case _ (get_chapter_config_info c chapter_id) (unlock_chapter_outcome c h chapter_id)
  where
    h' : DreamHero
    h' = (req_unlock_chapter c h chapter_id).0

    by_case :
        (e : Option GameError) (o : Option ChapterConfig)
        → UnlockOutcome h chapter_id h' e o
        → IsOnePerChapter h'.records
    by_case e none (same, _) = rw same d
    by_case e (some config) (inr (_, same, _)) = rw same d
    by_case e (some config) (inl (can, _, _, added, _)) =
        rw added (IsOnePerChapter-append h.records _ d (ground arith))
