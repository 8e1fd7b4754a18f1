-- ===== src/Sessions/Live/Steps.antt =====
-- What may happen to sessions and heroes, in any order.
use dream_heroes.Base.{
  ==_iff, Bool, Option, Option-cases, [], ap, arith, false, if◌then◌else◌, inl, inr, none, refl,
  some, subst, sym, true, ℕ, ◌==◌, ◌>>=◌, ◌>>=◌, ◌∙◌, ◌∷◌, ◌≡◌,
}
use dream_heroes.Base.Int.{ℤ}
use dream_heroes.Base.Map.{Map, assign, erase, find, find-assign_self, nat_key}
use dream_heroes.Hero.{DreamHero}
use dream_heroes.Sessions.Live.{
  GameWorld, LiveHero, Session, add_user, add_user_at, answer_at, answer_session, greet, leave,
  need_create_at, offline_at, offline_user, on_object, on_pointer, parse_db_query_need_create_hero,
  prase_db_query_hero_info, put_game_session, remove_at, remove_of_gate, remove_user,
  send_client_init, session_offline, session_online, set_online, start_destroy_time,
  stop_destroy_clock,
}
use dream_heroes.Sessions.Live.Kept.{add_user_lem, joined, left, remove_user_lem}
use dream_heroes.Sessions.Live.Linked.{
  IsLinked, Linked, erase_session-Linked, find-erase_cases, put_game_session-Linked,
  put_object-Linked,
}
use dream_heroes.Sessions.Live.Seats.{
  need_create-IsLinked, on_object-IsLinked, send_client_init-IsLinked, touch-Linked,
}
use mathlib.Core.Option.{none-ne-some, some-injective}

-- A call through a session's pointer.
pub on_pointer-IsLinked :
    (f : LiveHero → LiveHero) (o : Option ℕ) (w : GameWorld)
    → ((h : ℕ) → o ≡ some h → IsLinked (on_object f h w))
    → Linked w
    → IsLinked (on_pointer f o w)
unfolding on_pointer
on_pointer-IsLinked f none w called l = l
on_pointer-IsLinked f (some h) w called l = called h refl

-- A session that goes off line or comes back on line.
reseat-IsLinked :
    (b : Bool) (t : ℕ) (x y : Session) (w : GameWorld)
    → find t w.onlines ≡ some x
    → y.dream_hero ≡ x.dream_hero
    → y.account ≡ x.account
    → Linked w
    → IsLinked (on_pointer (set_online b) y.dream_hero (put_game_session t y w))
unfolding put_game_session set_online
reseat-IsLinked b t x y w known hero account l =
    on_pointer-IsLinked (set_online b) y.dream_hero (put_game_session t y w)
      (λ h linked.
        let (v, live, points, same) = l.seated t h x known (sym hero ∙ linked) in
        on_object-IsLinked (set_online b) h v (put_game_session t y w) live (
          touch-Linked h v (set_online b v) (put_game_session t y w) live refl refl
            (l.asleep h v live) put))
      put
  where
    put : Linked (put_game_session t y w)
    put =
        put_game_session-Linked t y w
          (λ h linked.
            let (v, live, points, same) = l.seated t h x known (sym hero ∙ linked) in
            (v, live, points, same ∙ sym account))
          (λ t1 x1 e same. l.single t t1 x x1 known e (same ∙ account)) l

pub offline_user-IsLinked : (t : ℕ) (w : GameWorld) → Linked w → IsLinked (offline_user t w)
unfolding offline_user offline_at
offline_user-IsLinked t w l = elim (Option-cases (find t w.onlines)) [
  | inl gone ↦ subst (λ o. IsLinked (offline_at t o w)) (sym gone) l
  | inr (x, known) ↦
      subst (λ o. IsLinked (offline_at t o w)) (sym known)
        (reseat-IsLinked false t x (record x { state = session_offline }) w known refl refl l)
]

-- A hero whose session has gone.
leave-Linked :
    (t h : ℕ) (x : Session) (v : LiveHero) (w : GameWorld)
    → find t w.onlines ≡ some x
    → x.dream_hero ≡ some h
    → find h w.objects ≡ some v
    → Linked w
    → Linked (left t h v w)
unfolding left leave start_destroy_time
leave-Linked t h x v w known linked live l =
    put_object-Linked h (leave v) (record w { onlines = erase t w.onlines })
      (λ t1 x1 e linked1.
        let (other, known1) = find-erase_cases t t1 x1 w.onlines e in
        let (u, found, points, same) = l.seated t h x known linked in
        let (u1, found1, points1, same1) = l.seated t1 h x1 known1 linked1 in
        let one = some-injective u u1 (sym found ∙ found1) in
        absurd (
          other (
            some-injective t1 t
              (sym points1 ∙ sym (ap (λ (z : LiveHero). z.session) one) ∙ points))))
      (λ a e.
        let (u, found, same) = l.kept a h e in
        ap (λ (z : LiveHero). z.account) (some-injective v u (sym live ∙ found)) ∙ same)
      (λ e. refl) (l.fresh h v live) (erase_session-Linked t w l)

pub remove_user-IsLinked : (t : ℕ) (w : GameWorld) → Linked w → IsLinked (remove_user t w)
unfolding remove_user remove_at on_pointer
remove_user-IsLinked t w l = elim (Option-cases (find t w.onlines)) [
  | inl gone ↦ subst (λ o. IsLinked (remove_at t o w)) (sym gone) l
  | inr (x, known) ↦ elim (Option-cases x.dream_hero) [
    | inl alone ↦
        subst (λ o. IsLinked (remove_at t o w)) (sym known)
          (subst (λ o. IsLinked (on_pointer leave o (record w { onlines = erase t w.onlines })))
            (sym alone) (erase_session-Linked t w l))
    | inr (h, linked) ↦
        let (v, live, points, same) = l.seated t h x known linked in
        subst IsLinked (sym (remove_user_lem t h x v w known linked live))
          (leave-Linked t h x v w known linked live l)
  ]
]

then-IsLinked :
    (o : Option GameWorld) (f : GameWorld → Option GameWorld)
    → IsLinked o
    → ((w : GameWorld) → Linked w → IsLinked (f w))
    → IsLinked (o >>= f)
then-IsLinked none f l k = l
then-IsLinked (some w) f l k = k w l

branch-IsLinked :
    (b : Bool) (o o1 : Option GameWorld) → IsLinked o → IsLinked o1 → IsLinked (if b then o else o1)
branch-IsLinked true o o1 l k = l
branch-IsLinked false o o1 l k = k

pub remove_of_gate-IsLinked :
    (gate : ℕ) (xs : Map ℕ Session) (w : GameWorld) → Linked w → IsLinked (remove_of_gate gate xs w)
unfolding remove_of_gate
remove_of_gate-IsLinked gate [] w l = l
remove_of_gate-IsLinked gate ((t, x) ∷ xs) w l =
    then-IsLinked _ (remove_of_gate gate xs)
      (branch-IsLinked (x.gate == gate) (remove_user t w) (some w) (remove_user-IsLinked t w l) l)
      (remove_of_gate-IsLinked gate xs)

-- A session of an account that is new, or that is known by its number, account and gate.
abbrev pub MayJoin : ℕ → ℕ → ℕ → GameWorld → Type 0
MayJoin t a gate w =
    ((t1 : ℕ) (x : Session) → find t1 w.onlines ≡ some x → x.account ≡ a → t1 ≡ t)
    × ((x : Session) → find t w.onlines ≡ some x → (x.gate ≡ gate) × (x.account ≡ a))

-- A new session.
greet-IsLinked :
    (init : DreamHero → DreamHero) (t a gate : ℕ) (channel : ℤ) (w : GameWorld)
    → find t w.onlines ≡ none
    → ((t1 : ℕ) (x : Session) → find t1 w.onlines ≡ some x → x.account ≡ a → t1 ≡ t)
    → Linked w
    → IsLinked (add_user init t a gate channel w)
unfolding add_user add_user_at greet joined put_game_session send_client_init stop_destroy_clock
greet-IsLinked init t a gate channel w new alone l = elim (Option-cases (find a w.heroes)) [
  | inl no_hero ↦
      subst (λ o. IsLinked (add_user_at init t a gate channel o w)) (sym new)
        (subst (λ o. IsLinked (greet init t x o w)) (sym no_hero)
          (put_game_session-Linked t x w (λ h e. absurd (none-ne-some h e)) alone l))
  | inr (h, own) ↦
      let (v, live, same) = l.kept a h own in
      let v1 = send_client_init init (record v { session = some t }) in
      subst IsLinked (sym (add_user_lem init t a gate channel h v w new own live)) (
        put_game_session-Linked t (record x { dream_hero = some h })
          (record w { objects = assign h v1 w.objects })
          (λ j linked.
            let one = some-injective h j linked in
            (
              v1,
              ap (λ i. find i (assign h v1 w.objects)) (sym one) ∙ find-assign_self h v1 w.objects,
              refl,
              same,
            ))
          alone
          (put_object-Linked h v1 w
            (λ t1 x1 e linked.
              let (u, found, points, same1) = l.seated t1 h x1 e linked in
              let one = some-injective v u (sym live ∙ found) in
              let there =
                alone t1 x1 e (sym same1 ∙ sym (ap (λ (z : LiveHero). z.account) one) ∙ same) in
              absurd (none-ne-some x1 (sym new ∙ ap (λ i. find i w.onlines) (sym there) ∙ e)))
            (λ b e.
              let (u, found, same1) = l.kept b h e in
              ap (λ (z : LiveHero). z.account) (some-injective v u (sym live ∙ found)) ∙ same1)
            (λ e. ground (arith, e)) (l.fresh h v live) l))
]
  where
    x : Session
    x = record {
      account = a;
      gate = gate;
      channel = channel;
      state = session_online;
      dream_hero = none;
    }

pub add_user-IsLinked :
    (init : DreamHero → DreamHero) (t a gate : ℕ) (channel : ℤ) (w : GameWorld)
    → MayJoin t a gate w
    → Linked w
    → IsLinked (add_user init t a gate channel w)
unfolding add_user add_user_at
add_user-IsLinked init t a gate channel w may l = elim (Option-cases (find t w.onlines)) [
  | inl new ↦ greet-IsLinked init t a gate channel w new may.0 l
  | inr (x, known) ↦
      let (at_gate, own) = may.1 x known in
      subst (λ o. IsLinked (add_user_at init t a gate channel o w)) (sym known)
        (rw ((==_iff x.gate gate).1 at_gate, (==_iff x.account a).1 own)
          (reseat-IsLinked true t x (record x { state = session_online; channel = channel }) w known
            refl refl l))
]

-- The database's answer about a hero.
pub hero_info-IsLinked :
    (init : DreamHero → DreamHero) (t key : ℕ) (hero : DreamHero) (w : GameWorld)
    → ((x : Session) → find t w.onlines ≡ some x → key ≡ x.account)
    → Linked w
    → IsLinked (prase_db_query_hero_info init t key hero w)
unfolding prase_db_query_hero_info answer_at answer_session need_create_at
hero_info-IsLinked init t key hero w own l = elim (Option-cases (find t w.onlines)) [
  | inl gone ↦ subst (λ o. IsLinked (answer_at init t key hero o w)) (sym gone) l
  | inr (x, known) ↦ elim (Option-cases x.dream_hero) [
    | inl alone ↦
        subst (λ o. IsLinked (answer_at init t key hero o w)) (sym known)
          (subst (λ o. IsLinked (answer_session init t key hero x o w)) (sym alone)
            (subst (λ k. IsLinked (answer_session init t k hero x none w)) (sym (own x known))
              (need_create-IsLinked init t hero x w known alone l)))
    | inr (h, linked) ↦
        let (v, live, points, same) = l.seated t h x known linked in
        subst (λ o. IsLinked (answer_at init t key hero o w)) (sym known)
          (subst (λ o. IsLinked (answer_session init t key hero x o w)) (sym linked)
            (send_client_init-IsLinked init h v w live l))
  ]
]

pub new_hero-IsLinked :
    (init : DreamHero → DreamHero) (t : ℕ) (hero : DreamHero) (w : GameWorld)
    → ((x : Session) → find t w.onlines ≡ some x → x.dream_hero ≡ none)
    → Linked w
    → IsLinked (parse_db_query_need_create_hero init t hero w)
unfolding parse_db_query_need_create_hero need_create_at
new_hero-IsLinked init t hero w alone l = elim (Option-cases (find t w.onlines)) [
  | inl gone ↦ subst (λ o. IsLinked (need_create_at init t hero o w)) (sym gone) l
  | inr (x, known) ↦
      subst (λ o. IsLinked (need_create_at init t hero o w)) (sym known)
        (need_create-IsLinked init t hero x w known (alone x known) l)
]
