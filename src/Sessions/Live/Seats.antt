-- ===== src/Sessions/Live/Seats.antt =====
-- Sessions that get a hero, and calls of its methods.
use dream_heroes.Base.{
  Option, Option-cases, ap, arith, false, inl, inr, none, refl, some, subst, sym, true, ℕ, ◌>>=◌,
  ◌>>=◌, ◌∙◌, ◌≡◌,
}
use dream_heroes.Base.Map.{assign, find, find-assign_ne, find-assign_self, nat_key}
use dream_heroes.Gate.Tables.{add_data, add_data-new}
use dream_heroes.Hero.{DreamHero}
use dream_heroes.Sessions.Live.{
  GameWorld, LiveHero, Session, adopt, create, create_hero, meet, need_create_at, on_object,
  put_game_session, send_client_init, stop_destroy_clock,
}
use dream_heroes.Sessions.Live.Kept.{on_object_lem}
use dream_heroes.Sessions.Live.Linked.{
  IsLinked, Linked, find-assign_cases, put_game_session-Linked, put_object-Linked,
}
use mathlib.Core.Option.{none-ne-some, some-injective}

-- A call of a method of a live hero.
pub on_object-IsLinked :
    (f : LiveHero → LiveHero) (h : ℕ) (v : LiveHero) (w : GameWorld)
    → find h w.objects ≡ some v
    → Linked (record w { objects = assign h (f v) w.objects })
    → IsLinked (on_object f h w)
on_object-IsLinked f h v w live l = subst IsLinked (sym (on_object_lem f h v w live)) l

-- The object under a number is one.
same_object :
    (w : GameWorld) (h : ℕ) {u v : LiveHero}
    → find h w.objects ≡ some u
    → find h w.objects ≡ some v
    → u ≡ v
same_object w h {u = u} {v = v} e e2 = some-injective u v (sym e ∙ e2)

-- A live hero that changes without a change of its session and its account.
pub touch-Linked :
    (h : ℕ) (v v1 : LiveHero) (w : GameWorld)
    → find h w.objects ≡ some v
    → v1.session ≡ v.session
    → v1.account ≡ v.account
    → (v1.destroy_event ≡ true → v1.session ≡ none)
    → Linked w
    → Linked (record w { objects = assign h v1 w.objects })
touch-Linked h v v1 w live session account sleeps l =
    put_object-Linked h v1 w
      (λ t x e linked.
        let (u, found, points, same) = l.seated t h x e linked in
        let one = same_object w h live found in
        (
          session ∙ ap (λ (z : LiveHero). z.session) one ∙ points,
          account ∙ ap (λ (z : LiveHero). z.account) one ∙ same,
        ))
      (λ a e.
        let (u, found, same) = l.kept a h e in
        account ∙ ap (λ (z : LiveHero). z.account) (same_object w h live found) ∙ same)
      sleeps (l.fresh h v live) l

-- `SendClientInit` of a hero that is live.
pub send_client_init-IsLinked :
    (init : DreamHero → DreamHero) (h : ℕ) (v : LiveHero) (w : GameWorld)
    → find h w.objects ≡ some v
    → Linked w
    → IsLinked (on_object (send_client_init init) h w)
unfolding send_client_init stop_destroy_clock
send_client_init-IsLinked init h v w live l =
    on_object-IsLinked (send_client_init init) h v w live
      (touch-Linked h v (send_client_init init v) w live refl refl (λ e. ground (arith, e)) l)

-- A session without a hero meets a hero that has it already.
pub meet-IsLinked :
    (init : DreamHero → DreamHero) (t h : ℕ) (x : Session) (v : LiveHero) (w : GameWorld)
    → find t w.onlines ≡ some x
    → find h w.objects ≡ some v
    → v.session ≡ some t
    → v.account ≡ x.account
    → Linked w
    → IsLinked (meet init t x h w)
unfolding meet put_game_session
meet-IsLinked init t h x v w known live points same l =
    send_client_init-IsLinked init h v (put_game_session t (record x { dream_hero = some h }) w)
      live
      (put_game_session-Linked t (record x { dream_hero = some h }) w
        (λ j linked.
          let one = some-injective h j linked in
          (v, ap (λ i. find i w.objects) (sym one) ∙ live, points, same))
        (λ t1 x1 e. l.single t t1 x x1 known e) l)

-- The hero of an account whose session has none gets a session.
pub adopt-Linked :
    (t h : ℕ) (x : Session) (v : LiveHero) (w : GameWorld)
    → find t w.onlines ≡ some x
    → x.dream_hero ≡ none
    → find h w.objects ≡ some v
    → v.account ≡ x.account
    → Linked w
    → Linked (record w { objects = assign h (adopt t x.account v) w.objects })
unfolding adopt stop_destroy_clock
adopt-Linked t h x v w known alone live own l =
    put_object-Linked h (adopt t x.account v) w
      (λ t1 x1 e linked.
        let (u, found, points, same) = l.seated t1 h x1 e linked in
        let one = same_object w h live found in
        let there =
          l.single t t1 x x1 known e
            (sym same ∙ sym (ap (λ (z : LiveHero). z.account) one) ∙ own) in
        let x_one = some-injective x x1 (sym known ∙ ap (λ i. find i w.onlines) (sym there) ∙ e) in
        absurd (none-ne-some h (sym alone ∙ ap (λ (z : Session). z.dream_hero) x_one ∙ linked)))
      (λ a e.
        let (u, found, same) = l.kept a h e in
        sym own ∙ ap (λ (z : LiveHero). z.account) (same_object w h live found) ∙ same)
      (λ e. ground (arith, e)) (l.fresh h v live) l

-- An account without a live hero gets one.
pub create-Linked :
    (t a : ℕ) (hero : DreamHero) (w : GameWorld)
    → find a w.heroes ≡ none
    → Linked w
    → Linked (create t a a hero w).0
unfolding create
create-Linked t a hero w new l = record {
  seated = λ t1 j x e linked.
      let (u, live, points, same) = l.seated t1 j x e linked in (u, beside j u live, points, same);
  single = l.single;
  kept = λ b j e. elim (find-assign_cases a b w.next_object j w.heroes (in_heroes b j e)) [
    | inl p ↦ (
      v,
      ap (λ i. find i (assign w.next_object v w.objects)) (sym p.1)
          ∙ find-assign_self w.next_object v w.objects,
      sym p.0,
    )
    | inr p ↦ let (u, live, same) = l.kept b j p.1 in (u, beside j u live, same)
  ];
  asleep = λ j u e. elim (find-assign_cases w.next_object j v u w.objects e) [
    | inl p ↦
        subst (λ (z : LiveHero). z.destroy_event ≡ true → z.session ≡ none) p.1
          (λ q. ground (arith, q))
    | inr p ↦ l.asleep j u p.1
  ];
  fresh = λ j u e. elim (find-assign_cases w.next_object j v u w.objects e) [
    | inl p ↦ omega (arith, p.0)
    | inr p ↦ omega (arith, l.fresh j u p.1)
  ];
}
  where
    v : LiveHero
    v = record {
      account = a;
      session = some t;
      online = false;
      destroy_clock = false;
      destroy_event = false;
      hero = hero;
    }

    beside :
        (j : ℕ) (u : LiveHero)
        → find j w.objects ≡ some u
        → find j (assign w.next_object v w.objects) ≡ some u
    beside j u live =
        find-assign_ne w.next_object j v w.objects (λ e. omega (arith, e, l.fresh j u live)) ∙ live

    in_heroes :
        (b j : ℕ)
        → find b (add_data a w.next_object w.heroes) ≡ some j
        → find b (assign a w.next_object w.heroes) ≡ some j
    in_heroes b j e = sym (ap (find b) (add_data-new a w.next_object w.heroes new)) ∙ e

-- An account's live hero, or a new one, meets the session, which has none.
pub need_create-IsLinked :
    (init : DreamHero → DreamHero) (t : ℕ) (hero : DreamHero) (x : Session) (w : GameWorld)
    → find t w.onlines ≡ some x
    → x.dream_hero ≡ none
    → Linked w
    → IsLinked (need_create_at init t hero (some x) w)
unfolding need_create_at create_hero create adopt stop_destroy_clock
need_create-IsLinked init t hero x w known alone l = elim (Option-cases (find x.account w.heroes)) [
  | inl new ↦
      subst (λ o. IsLinked (bring o)) (sym new)
        (meet-IsLinked init t w.next_object x _ _ known (find-assign_self w.next_object _ w.objects)
          refl refl (create-Linked t x.account hero w new l))
  | inr (h, own) ↦
      let (v, live, same) = l.kept x.account h own in
      subst (λ o. IsLinked (bring o)) (sym own)
        (subst (λ o. IsLinked (greeted h o)) (sym (on_object_lem (adopt t x.account) h v w live))
          (meet-IsLinked init t h x (adopt t x.account v) _ known
            (find-assign_self h (adopt t x.account v) w.objects) refl refl
            (adopt-Linked t h x v w known alone live same l)))
]
  where
    bring : Option ℕ → Option GameWorld
    bring o = create_hero t x.account x.account hero o w >>= λ p. meet init t x p.1 p.0

    greeted : ℕ → Option GameWorld → Option GameWorld
    greeted h o =
        let with_hero : GameWorld → Option (GameWorld × ℕ) = λ w1. some (w1, h) in
        (o >>= with_hero) >>= λ p. meet init t x p.1 p.0
