-- ===== src/Sessions/Live/Reach.antt =====
-- The sessions and heroes that the game server can come to, from none on.
use dream_heroes.Base.{
  Bool-cases, Option, Option-cases, [], ap, inl, inr, none, refl, some, subst, sym, ℕ, ◌∙◌, ◌≡◌,
  ◌≢◌,
}
use dream_heroes.Base.Int.{ℤ}
use dream_heroes.Base.Map.{erase, find, find-erase_ne, nat_key}
use dream_heroes.Events.Due.{due}
use dream_heroes.Hero.{DreamHero}
use dream_heroes.Sessions.Live.{
  GameWorld, LiveHero, Session, add_user, destroy_at, destroy_hero, destroy_timer, forget_pointer,
  is_object, offline_user, parse_db_query_need_create_hero, prase_db_query_hero_info, remove_user,
  remove_user_by_gate, user_msg, user_msg_at,
}
use dream_heroes.Sessions.Live.Linked.{IsLinked, Linked, find-erase_cases}
use dream_heroes.Sessions.Live.Seats.{on_object-IsLinked, touch-Linked}
use dream_heroes.Sessions.Live.Steps.{
  MayJoin, add_user-IsLinked, hero_info-IsLinked, new_hero-IsLinked, offline_user-IsLinked,
  on_pointer-IsLinked, remove_of_gate-IsLinked, remove_user-IsLinked,
}
use mathlib.Core.Option.{none-ne-some, some-injective}

user_msg-IsLinked :
    (handle : DreamHero → DreamHero) (t : ℕ) (w : GameWorld)
    → Linked w
    → IsLinked (user_msg handle t w)
unfolding user_msg user_msg_at
user_msg-IsLinked handle t w l = elim (Option-cases (find t w.onlines)) [
  | inl gone ↦ subst (λ o. IsLinked (user_msg_at handle o w)) (sym gone) l
  | inr (x, known) ↦
      subst (λ o. IsLinked (user_msg_at handle o w)) (sym known)
        (on_pointer-IsLinked (λ v. record v { hero = handle v.hero }) x.dream_hero w
          (λ h linked.
            let (v, live, points, same) = l.seated t h x known linked in
            on_object-IsLinked (λ u. record u { hero = handle u.hero }) h v w live
              (touch-Linked h v (record v { hero = handle v.hero }) w live refl refl
                (l.asleep h v live) l))
          l)
]

-- A hero without a session is deleted.
erase_hero-Linked :
    (h : ℕ) (v : LiveHero) (w : GameWorld)
    → find h w.objects ≡ some v
    → v.session ≡ none
    → Linked w
    → Linked (record w { objects = erase h w.objects; heroes = erase v.account w.heroes })
erase_hero-Linked h v w live alone l = record {
  seated = λ t j x e linked.
      let (u, found, points, same) = l.seated t j x e linked in
      let apart : j ≢ h = λ p.
        none-ne-some t
          (sym alone ∙ ap (λ (z : LiveHero). z.session) (one_object j u p found) ∙ points) in
      (u, find-erase_ne h j w.objects apart ∙ found, points, same);
  single = l.single;
  kept = λ b j e.
      let (other, old) = find-erase_cases v.account b j w.heroes e in
      let (u, found, same) = l.kept b j old in
      let apart : j ≢ h =
        λ p. other (sym same ∙ sym (ap (λ (z : LiveHero). z.account) (one_object j u p found))) in
      (u, find-erase_ne h j w.objects apart ∙ found, same);
  asleep = λ j u e. l.asleep j u (find-erase_cases h j u w.objects e).1;
  fresh = λ j u e. l.fresh j u (find-erase_cases h j u w.objects e).1;
}
  where
    one_object : (j : ℕ) (u : LiveHero) → j ≡ h → find j w.objects ≡ some u → v ≡ u
    one_object j u p found =
        some-injective v u (sym live ∙ ap (λ i. find i w.objects) (sym p) ∙ found)

destroy_timer-Linked : (h : ℕ) (w : GameWorld) → Linked w → Linked (destroy_timer h w)
unfolding destroy_timer destroy_at destroy_hero forget_pointer
destroy_timer-Linked h w l = elim (Option-cases (find h w.objects)) [
  | inl gone ↦ subst (λ o. Linked (destroy_at h o w)) (sym gone) l
  | inr (v, live) ↦
      subst (λ o. Linked (destroy_at h o w)) (sym live)
        (elim (Bool-cases v.destroy_event) [
          | inr still ↦ rw still l
          | inl due ↦
              let alone = l.asleep h v live due in
              rw (due, alone)
                (elim (Bool-cases (is_object h (find v.account w.heroes))) [
                  | inl own ↦ rw own (erase_hero-Linked h v w live alone l)
                  | inr other ↦ rw other l
                ])
        ])
]

-- What happens to the game server, and the answer of its code: messages of the gates, one from the database, a
-- request, and the timer of a hero.
pub data Step : GameWorld → Option GameWorld → Type 0 where
  joins :
      (init : DreamHero → DreamHero) (t a gate : ℕ) (channel : ℤ) (w : GameWorld)
      → MayJoin t a gate w
      → Step w (add_user init t a gate channel w)
  goes_offline : (t : ℕ) (w : GameWorld) → Step w (offline_user t w)
  leaves : (t : ℕ) (w : GameWorld) → Step w (remove_user t w)
  gate_closes : (gate : ℕ) (w : GameWorld) → Step w (remove_user_by_gate gate w)
  asks : (handle : DreamHero → DreamHero) (t : ℕ) (w : GameWorld) → Step w (user_msg handle t w)
  is_loaded :
      (init : DreamHero → DreamHero) (t key : ℕ) (hero : DreamHero) (w : GameWorld)
      → ((x : Session) → find t w.onlines ≡ some x → key ≡ x.account)
      → Step w (prase_db_query_hero_info init t key hero w)
  is_new :
      (init : DreamHero → DreamHero) (t : ℕ) (hero : DreamHero) (w : GameWorld)
      → ((x : Session) → find t w.onlines ≡ some x → x.dream_hero ≡ none)
      → Step w (parse_db_query_need_create_hero init t hero w)
  times_out : (h : ℕ) (w : GameWorld) → Step w (some (destroy_timer h w))

pub data Reach : GameWorld → Type 0 where
  starts : Reach (record { onlines = []; heroes = []; objects = []; next_object = 0 })
  next : {w w1 : GameWorld} → Reach w → Step w (some w1) → Reach w1

pub Step-IsLinked : {w : GameWorld} {o : Option GameWorld} → Step w o → Linked w → IsLinked o
unfolding remove_user_by_gate
Step-IsLinked (joins init t a gate channel w may) l =
    add_user-IsLinked init t a gate channel w may l
Step-IsLinked (goes_offline t w) l = offline_user-IsLinked t w l
Step-IsLinked (leaves t w) l = remove_user-IsLinked t w l
Step-IsLinked (gate_closes gate w) l = remove_of_gate-IsLinked gate w.onlines w l
Step-IsLinked (asks handle t w) l = user_msg-IsLinked handle t w l
Step-IsLinked (is_loaded init t key hero w own) l = hero_info-IsLinked init t key hero w own l
Step-IsLinked (is_new init t hero w alone) l = new_hero-IsLinked init t hero w alone l
Step-IsLinked (times_out h w) l = destroy_timer-Linked h w l

Reach-Linked : {w : GameWorld} → Reach w → Linked w
unfolding find
Reach-Linked starts = record {
  seated = λ t h x e linked. absurd (none-ne-some x e);
  single = λ t t1 x x1 e. absurd (none-ne-some x e);
  kept = λ a h e. absurd (none-ne-some h e);
  asleep = λ h v e. absurd (none-ne-some v e);
  fresh = λ h v e. absurd (none-ne-some v e);
}
Reach-Linked (next r step) = Step-IsLinked step (Reach-Linked r)

-- From no sessions and no heroes on, and where no account has two sessions, a known number of a transaction comes
-- only again from its gate and account, the database answers with the row of the session's account, and tells of an
-- unknown account only a session without a hero: whatever comes, in any order, every step has a result, so that no
-- pointer to a deleted hero is followed, and after it every session's hero is live, has that session and is of its
-- account, the live heroes stand under their accounts, and a hero that the timer will destroy has no session.
pub Reach-IsLinked : {w : GameWorld} {o : Option GameWorld} → Reach w → Step w o → IsLinked o
Reach-IsLinked r step = Step-IsLinked step (Reach-Linked r)
