-- ===== src/Hero/Lottery/Draw.antt =====
-- The choice of a box by weight in `ReqDayLottery` of gameserver/DreamHero.cpp.
use dream_heroes.Base.{
  Bool-cases, List, [], arith, false, if◌then◌else◌, inl, inr, refl, ℕ, ◌%◌, ◌<◌, ◌∙◌, ◌∷◌, ◌≡◌,
  ◌⊎◌,
}
use dream_heroes.Base.Int.{
  +ℤ_parts, ==ℤ_iff, ltb_ℤ, negsuc, pos, pos_part, ℤ, ◌+ℤ◌, ◌<ℤ◌, ◌==ℤ◌, ◌≤ℤ◌,
}
use dream_heroes.Base.Map.{Map, assign, int_key}
use dream_heroes.Config.{LotteryDrawBox}
use dream_heroes.Hero.Lottery.{draw_box, pick_box, rand_below, rating_map, total_rating}
use native.Mathlib.Nat.{mod-lt}

-- The keys of the map ascend from `low`, and none is above the rating that is reached.
abbrev Within : ℤ → ℤ → Map ℤ LotteryDrawBox → Type 0
Within low r [] = Unit
Within low r ((key, box) ∷ m) = (low ≤ℤ key) × (key ≤ℤ r) × Within (key +ℤ pos 1) r m

-- No rating is negative.
abbrev pub HasRatings : List LotteryDrawBox → Type 0
HasRatings [] = Unit
HasRatings (box ∷ boxes) = (pos 0 ≤ℤ box.rating) × HasRatings boxes

-- The box in whose interval the drawn number falls: each box has the interval of its rating that begins
-- where that of the box before it ends, the first one at `r`.
abbrev pub IsDrawn : LotteryDrawBox → List LotteryDrawBox → ℤ → ℤ → Type 0
IsDrawn b [] r n = ⊥
IsDrawn b (box ∷ boxes) r n =
    ((r ≤ℤ n) × (n <ℤ r +ℤ box.rating) × (b ≡ box)) ⊎ IsDrawn b boxes (r +ℤ box.rating) n

Within-mono : (low r r' : ℤ) (m : Map ℤ LotteryDrawBox) → r ≤ℤ r' → Within low r m → Within low r' m
Within-mono low r r' [] p w = tt
Within-mono low r r' ((key, box) ∷ m) p w =
    (w.0, omega (arith, p, w.1), Within-mono (key +ℤ pos 1) r r' m p w.2)

Within-low :
    (low low' r : ℤ) (m : Map ℤ LotteryDrawBox) → low' ≤ℤ low → Within low r m → Within low' r m
Within-low low low' r [] p w = tt
Within-low low low' r ((key, box) ∷ m) p w = (omega (arith, p, w.0), w.1, w.2)

-- A key above the reached rating leaves no room behind it.
Within-none : (low r : ℤ) (m : Map ℤ LotteryDrawBox) → r <ℤ low → Within low r m → m ≡ []
Within-none low r [] p w = refl
Within-none low r ((key, box) ∷ m) p w = absurd (omega (arith, p, w.0, w.1))

succ_above : (k r : ℤ) → k ≡ r → r <ℤ k +ℤ pos 1
succ_above k r e = ground (arith, +ℤ_parts k (pos 1))

succ_below : (k r : ℤ) → k <ℤ r → k +ℤ pos 1 ≤ℤ r
succ_below k r e = omega (arith, +ℤ_parts k (pos 1))

pick_box-assign :
    (low r n : ℤ) (b d : LotteryDrawBox) (m : Map ℤ LotteryDrawBox)
    → Within low r m
    → pick_box (assign r b m) n d ≡ (if ltb_ℤ n r then pick_box m n d else b)
unfolding pick_box assign
pick_box-assign low r n b d [] w = refl
pick_box-assign low r n b d ((key, box) ∷ m) w = elim (Bool-cases (r ==ℤ key)) [
  | inl e ↦
      let same : key ≡ r = ground (arith, ==ℤ_iff r key) in
      rw (e, Within-none (key +ℤ pos 1) r m (succ_above key r same) w.2) (ground arith)
  | inr e ↦
      let below : ltb_ℤ r key ≡ false = ground (arith, w.1) in
      rw (e, below) (ground (arith, pick_box-assign (key +ℤ pos 1) r n b box m w.2))
]

assign-Within :
    (low r r' : ℤ) (b : LotteryDrawBox) (m : Map ℤ LotteryDrawBox)
    → low ≤ℤ r
    → r ≤ℤ r'
    → Within low r m
    → Within low r' (assign r b m)
unfolding assign
assign-Within low r r' b [] p q w = (p, q, tt)
assign-Within low r r' b ((key, box) ∷ m) p q w = elim (Bool-cases (r ==ℤ key)) [
  | inl e ↦
      let same : key ≡ r = ground (arith, ==ℤ_iff r key) in
      rw e (p, q, Within-low _ _ r' m (ground arith) (Within-mono (key +ℤ pos 1) r r' m q w.2))
  | inr e ↦
      let below : ltb_ℤ r key ≡ false = ground (arith, w.1) in
      let before : key <ℤ r = ground (arith, w.1) in
      rw (e, below)
        (
          w.0,
          omega (arith, w.1, q),
          assign-Within (key +ℤ pos 1) r r' b m (succ_below key r before) q w.2,
        )
]

grows : (r rating : ℤ) → pos 0 ≤ℤ rating → r ≤ℤ r +ℤ rating
grows r rating p = omega (arith, +ℤ_parts r rating, p)

-- The boxes behind the drawn number do not count.
pick_box-below :
    (low r n : ℤ) (boxes : List LotteryDrawBox) (d : LotteryDrawBox) (m : Map ℤ LotteryDrawBox)
    → HasRatings boxes
    → low ≤ℤ r
    → n <ℤ r
    → Within low r m
    → pick_box (rating_map boxes r m) n d ≡ pick_box m n d
unfolding rating_map
pick_box-below low r n [] d m k p q w = refl
pick_box-below low r n (box ∷ boxes) d m k p q w =
    let r' = r +ℤ box.rating in
    let up = grows r box.rating k.0 in
    pick_box-below low r' n boxes d (assign r box m) k.1 (omega (arith, p, up))
      (omega (arith, q, up)) (assign-Within low r r' box m p up w)
    ∙ pick_box-assign low r n box d m w
    ∙ ground (arith, q)

pick_box-IsDrawn :
    (low r n : ℤ) (boxes : List LotteryDrawBox) (d : LotteryDrawBox) (m : Map ℤ LotteryDrawBox)
    → HasRatings boxes
    → low ≤ℤ r
    → r ≤ℤ n
    → n <ℤ total_rating boxes r
    → Within low r m
    → IsDrawn (pick_box (rating_map boxes r m) n d) boxes r n
unfolding rating_map total_rating
pick_box-IsDrawn low r n [] d m k p q t w = absurd (omega (arith, q, t))
pick_box-IsDrawn low r n (box ∷ boxes) d m k p q t w =
    let r' = r +ℤ box.rating in
    let up = grows r box.rating k.0 in
    let w' = assign-Within low r r' box m p up w in
    elim (Bool-cases (ltb_ℤ n r')) [
      | inl e ↦
          let here : n <ℤ r' = ground arith in
          inl (
            q,
            here,
            pick_box-below low r' n boxes d (assign r box m) k.1 (omega (arith, p, up)) here w'
                ∙ pick_box-assign low r n box d m w
                ∙ ground (arith, q),
          )
      | inr e ↦ inr (
          pick_box-IsDrawn low r' n boxes d (assign r box m) k.1 (omega (arith, p, up))
            (ground arith) t w')
    ]

-- Whatever `rand()` gives, if no rating is negative and their sum is positive, the box that is drawn among
-- `first ∷ boxes` is one in whose interval the drawn number falls: its interval is as long as its rating and
-- begins at the sum of the ratings before it.
pub draw_box-IsDrawn :
    (first : LotteryDrawBox) (boxes : List LotteryDrawBox) (r : ℕ)
    → HasRatings (first ∷ boxes)
    → pos 0 <ℤ total_rating (first ∷ boxes) (pos 0)
    → let n = rand_below r (total_rating (first ∷ boxes) (pos 0)) in
      IsDrawn (draw_box first boxes n) (first ∷ boxes) (pos 0) n
unfolding draw_box rand_below
draw_box-IsDrawn first boxes r k t =
    let total = total_rating (first ∷ boxes) (pos 0) in
    pick_box-IsDrawn (pos 0) (pos 0) (pos (r % pos_part total)) (first ∷ boxes) first [] k
      (omega arith) (omega arith) (rand_bound r total t) tt
  where
    rand_bound : (r : ℕ) (total : ℤ) → pos 0 <ℤ total → pos (r % pos_part total) <ℤ total
    rand_bound r (pos n) t =
        let positive : 0 < n = omega (arith, t) in omega (arith, mod-lt r positive)
    rand_bound r (negsuc n) t = absurd (omega arith)
