-- ===== src/Sessions/Live/Two.antt =====
-- Two sessions of one hero.
use dream_heroes.Base.{
  Option, ap, arith, false, if◌then◌else◌, none, refl, some, subst, sym, ℕ, ◌>>=◌, ◌>>=◌, ◌∙◌, ◌≡◌,
  ◌≢◌,
}
use dream_heroes.Base.Int.{ℤ}
use dream_heroes.Base.Map.{
  assign, erase, find, find-assign_ne, find-assign_self, find-erase_ne, find-erase_self, nat_key,
}
use dream_heroes.Hero.{DreamHero}
use dream_heroes.Sessions.Live.{
  GameWorld, LiveHero, Session, add_user, destroy_at, destroy_hero, destroy_timer, forget_pointer,
  is_object, leave, offline_at, offline_user, on_object, on_pointer, put_game_session, remove_user,
  send_client_init, session_offline, set_object, set_online, start_destroy_time, stop_destroy_clock,
}
use dream_heroes.Sessions.Live.Kept.{add_user_lem, joined, left, remove_user_lem}
use mathlib.Core.Option

-- The session `t` has the hero `h`, whose object has been deleted, and a call through the pointer has no result.
abbrev pub Dangles : ℕ → ℕ → Option GameWorld → Type 0
Dangles t h none = ⊥
Dangles t h (some w) =
    (Option.map (λ (x : Session). x.dream_hero) (find t w.onlines) ≡ some (some h))
    × (find h w.objects ≡ none)
    × (offline_user t w ≡ none)

destroyed_world : ℕ → ℕ → ℕ → LiveHero → GameWorld → GameWorld
destroyed_world t h a v w = record w {
  onlines = erase t w.onlines;
  objects = erase h (assign h (leave v) w.objects);
  heroes = erase a w.heroes;
}

-- The timer, where the session of the hero has left.
destroy_timer-left :
    (t h : ℕ) (v : LiveHero) (w : GameWorld)
    → find v.account w.heroes ≡ some h
    → destroy_timer h (left t h v w) ≡ destroyed_world t h v.account v w
unfolding destroy_timer destroy_at destroyed_world left leave start_destroy_time forget_pointer
    destroy_hero is_object
destroy_timer-left t h v w own =
    ap (λ o. destroy_at h o (left t h v w)) (find-assign_self h (leave v) w.objects)
    ∙ ap (λ o. if is_object h o then destroyed_world t h v.account v w else left t h v w) own
    ∙ ground arith

-- The deleted hero's other session.
destroyed_world-Dangles :
    (t t2 h a : ℕ) (x2 : Session) (v : LiveHero) (w : GameWorld)
    → t2 ≢ t
    → find t2 w.onlines ≡ some x2
    → x2.dream_hero ≡ some h
    → Dangles t2 h (some (destroyed_world t h a v w))
unfolding destroyed_world offline_user offline_at on_pointer on_object
destroyed_world-Dangles t t2 h a x2 v w other known2 linked2 = (
  ap (Option.map (λ (y : Session). y.dream_hero)) here ∙ ap some linked2,
  gone,
  ap (λ o. offline_at t2 o (destroyed_world t h a v w)) here
      ∙ ap (λ o. on_pointer (set_online false) o later) linked2
      ∙ ap (λ o. set_object (set_online false) h o later) gone,
)
  where
    later : GameWorld
    later = put_game_session t2 (record x2 { state = session_offline }) (destroyed_world t h a v w)

    here : find t2 (erase t w.onlines) ≡ some x2
    here = find-erase_ne t t2 w.onlines other ∙ known2

    gone : find h (erase h (assign h (leave v) w.objects)) ≡ none
    gone = find-erase_self h (assign h (leave v) w.objects)

-- An account with a live hero comes again under another number of the transaction, `t2`, and then its older
-- session `t` leaves: the hero, which the newer session plays, loses its session and its clock starts. When the
-- timer runs the hero is deleted, while `t2` still points at it, and the next call through that pointer has no
-- result.
pub older_session_leaves_dangling :
    (init : DreamHero → DreamHero) (t t2 h gate : ℕ) (channel : ℤ) (x : Session) (v : LiveHero)
    (w : GameWorld)
    → t2 ≢ t
    → find t w.onlines ≡ some x
    → x.dream_hero ≡ some h
    → find t2 w.onlines ≡ none
    → find h w.objects ≡ some v
    → v.account ≡ x.account
    → find x.account w.heroes ≡ some h
    → Dangles t2 h
        (Option.map (destroy_timer h) (add_user init t2 x.account gate channel w >>= remove_user t))
unfolding joined send_client_init stop_destroy_clock
older_session_leaves_dangling init t t2 h gate channel x v w other known linked new live same own =
    subst (Dangles t2 h)
      (sym (
        ap (λ o. Option.map (destroy_timer h) (o >>= remove_user t))
          (add_user_lem init t2 x.account gate channel h v w new own live)
        ∙ ap (Option.map (destroy_timer h)) (
            remove_user_lem t h x (send_client_init init (record v { session = some t2 })) world
              (find-assign_ne t2 t _ w.onlines (λ e. other (sym e)) ∙ known) linked
              (find-assign_self h _ w.objects))
        ∙ ap some (
            destroy_timer-left t h (send_client_init init (record v { session = some t2 })) world
              (ap (λ a. find a w.heroes) same ∙ own))))
      (destroyed_world-Dangles t t2 h v.account _ _ world other (find-assign_self t2 _ w.onlines)
        refl)
  where
    world : GameWorld
    world = joined init t2 x.account gate channel h v w
