-- ===== src/Events/Pass.antt =====
-- One pass of `EventableObjectHolder::update` of common/event_table_object.cpp, for callbacks that start no timer
-- that is due in the same pass.
use dream_heroes.Base.{
  All, Bool-cases, List, Option, Option-cases, [], ap, arith, false, inl, inr, leb, map, none, refl,
  some, suc, sym, true, zero, ℕ, ◌++◌, ◌+◌, ◌<◌, ◌∙◌, ◌∷◌, ◌≡◌, ◌≤◌, ◌⊎◌,
}
use dream_heroes.Events.{Command, TimedEvent, is_gone, obey, run, settle, touch_all, update}
use dream_heroes.Events.Due.{
  In, In-left, In-map, In-obey, In-right, IsLater, Spares, age, due, due-obey, is_due,
  touch_all-spared,
}
use mathlib.Core.Option

value_or : {A : Type 0} → A → Option A → A
value_or a none = a
value_or a (some b) = b

-- One event `e` and its callback `c`, which is not gone, and a program whose callbacks start no timer that is due
-- in the pass; no callback but `c` concerns the events of the kind of `e`.
module _ {C S : Type 0} (execute : C → S → List (TimedEvent C) → S × List (Command C)) (dt : ℕ)
    (e : TimedEvent C) (c : C) (live : is_gone e ≡ false) (call : e.callback ≡ some c)
    (later : (k : C) (s : S) (l : List (TimedEvent C)) → All (IsLater dt) (execute k s l).1)
    (others : (k : C) (s : S) (l : List (TimedEvent C))
      → (k ≡ c) ⊎ All (Spares e.obj e.event_type) (execute k s l).1) where
  -- The event after a pass in which it is not due.
  abbrev pub passed : TimedEvent C
  passed = age dt e

  -- The event is still to come, or has been passed and kept.
  abbrev pub Where : List (TimedEvent C) → List (TimedEvent C) → Type 0
  Where before rest = In e rest ⊎ ((dt < e.curr_time) × In passed before)

  abbrev pub IsOver : List (TimedEvent C) → List (TimedEvent C) → S → Type 0
  IsOver before rest s =
      (fuel : ℕ) × (l : List (TimedEvent C)) × (s' : S) × (ran : List C) × (update execute fuel dt
          before rest s
        ≡ some (l, s', ran))
      × (Where before rest → In c ran ⊎ ((dt < e.curr_time) × In passed l))

  skipped-IsOver :
      (x : TimedEvent C) (before xs : List (TimedEvent C)) (s : S)
      → is_gone x ≡ true
      → IsOver before xs s
      → IsOver before (x ∷ xs) s
  unfolding update
  skipped-IsOver x before xs s g (n, l, s', ran, q, out) = (
    suc n,
    l,
    s',
    ran,
    rw g q,
    λ w. out (elim w [
      | inl i ↦ elim i [ inl p ↦ absurd (ground (arith, live, g, ap is_gone p)) | inr j ↦ inl j ]
      | inr k ↦ inr k
    ]),
  )

  waiting-IsOver :
      (x : TimedEvent C) (before xs : List (TimedEvent C)) (s : S)
      → is_gone x ≡ false
      → leb x.curr_time dt ≡ false
      → IsOver (before ++ age dt x ∷ []) xs s
      → IsOver before (x ∷ xs) s
  unfolding update
  waiting-IsOver x before xs s g h (n, l, s', ran, q, out) = (
    suc n,
    l,
    s',
    ran,
    rw (g, h) q,
    λ w. out (elim w [
      | inl i ↦ elim i [
        | inl p ↦ inr (
          ground (arith, h, ap (λ t. t.curr_time) p),
          In-right passed before (age dt x ∷ []) (inl (ap (age dt) p)),
        )
        | inr j ↦ inl j
      ]
      | inr k ↦ inr (k.0, In-left passed before (age dt x ∷ []) k.1)
    ]),
  )

  null-IsOver :
      (x : TimedEvent C) (before xs : List (TimedEvent C)) (s : S)
      → is_gone x ≡ false
      → leb x.curr_time dt ≡ true
      → x.callback ≡ none
      → IsOver before xs s
      → IsOver before (x ∷ xs) s
  unfolding update run
  null-IsOver x before xs s g h b (n, l, s', ran, q, out) = (
    suc n,
    l,
    s',
    ran,
    rw (g, h, b) q,
    λ w. out (elim w [
      | inl i ↦ elim i [
        | inl p ↦ absurd (ground (arith, b, call, ap (λ t. t.callback) p))
        | inr j ↦ inl j
      ]
      | inr k ↦ inr k
    ]),
  )

  -- What ran after `k` ran too.
  behind :
      (k : C) (ran : List C) (l : List (TimedEvent C))
      → In c ran ⊎ ((dt < e.curr_time) × In passed l)
      → In c (k ∷ ran) ⊎ ((dt < e.curr_time) × In passed l)
  behind k ran l (inl i) = inl (inr i)
  behind k ran l (inr z) = inr z

  run-IsOver :
      (x : TimedEvent C) (k : C) (before xs : List (TimedEvent C)) (s : S)
      → is_gone x ≡ false
      → leb x.curr_time dt ≡ true
      → x.callback ≡ some k
      → let (s1, xs1) = execute k s (before ++ x ∷ xs) in
        IsOver (map (touch_all xs1) before ++ settle (touch_all xs1 x)) (obey xs1 xs) s1
        → IsOver before (x ∷ xs) s
  unfolding update run value_or
  run-IsOver x k before xs s g h b (n, l, s', ran, q, out) =
      let xs1 = (execute k s (before ++ x ∷ xs)).1 in
      (
        suc n,
        l,
        s',
        k ∷ ran,
        rw (g, h)
            (ap (run execute (update execute n dt) before x xs s) b
              ∙ ap (Option.map (λ (l, s'', ran). (l, s'', k ∷ ran))) q),
        λ w. elim (others k s (before ++ x ∷ xs)) [
          | inl p ↦ inl (inl p)
          | inr spared ↦ elim w [
            | inl i ↦ elim i [
              | inl p ↦ inl (inl (ap (value_or c) (sym b ∙ ap (λ t. t.callback) p ∙ call)))
              | inr j ↦ behind k ran l (out (inl (In-obey xs1 e xs spared j)))
            ]
            | inr m ↦ behind k ran l (
                out (
                  inr (
                    m.0,
                    In-left passed (map (touch_all xs1) before) (settle (touch_all xs1 x)) (
                        In-map (touch_all xs1) passed before (touch_all-spared xs1 passed spared)
                          m.1),
                  )))
          ]
        ],
      )

  -- The loop with at most `d` events due among the coming ones, where `fewer_due` does it for fewer.
  update_by-IsOver :
      (d : ℕ)
      → ((before rest : List (TimedEvent C)) (s : S) → due dt rest < d → IsOver before rest s)
      → (rest before : List (TimedEvent C)) (s : S) → due dt rest ≤ d
      → IsOver before rest s
  unfolding due is_due update
  update_by-IsOver d fewer_due [] before s h =
      (1, before, s, [], refl, λ w. elim w [ inl i ↦ absurd i | inr k ↦ inr k ])
  update_by-IsOver d fewer_due (x ∷ xs) before s h = elim (Bool-cases (is_gone x)) [
    | inl g ↦
        skipped-IsOver x before xs s g
          (update_by-IsOver d fewer_due xs before s (ground (arith, h, g)))
    | inr g ↦ elim (Bool-cases (leb x.curr_time dt)) [
      | inl q ↦
          let less : due dt xs < d = ground (arith, h, g, q) in
          elim (Option-cases x.callback) [
            | inl b ↦ null-IsOver x before xs s g q b (fewer_due before xs s less)
            | inr (k, b) ↦
                let (s1, xs1) = execute k s (before ++ x ∷ xs) in
                run-IsOver x k before xs s g q b (
                  fewer_due (map (touch_all xs1) before ++ settle (touch_all xs1 x)) (obey xs1 xs)
                    s1 (omega (arith, less, due-obey dt xs1 xs (later k s (before ++ x ∷ xs)))))
          ]
      | inr q ↦
          waiting-IsOver x before xs s g q
            (update_by-IsOver d fewer_due xs (before ++ age dt x ∷ []) s (ground (arith, h, g, q)))
    ]
  ]

  update-IsOver :
      (d : ℕ) (before rest : List (TimedEvent C)) (s : S) → due dt rest < d → IsOver before rest s
  update-IsOver zero before rest s h = absurd (omega (arith, h))
  update-IsOver (suc d) before rest s h =
      update_by-IsOver d (update-IsOver d) rest before s (omega (arith, h))

  -- A pass over any events ends.
  pub pass-IsOver : (l : List (TimedEvent C)) (s : S) → IsOver [] l s
  pass-IsOver l s = update-IsOver (due dt l + 1) [] l s (omega arith)
