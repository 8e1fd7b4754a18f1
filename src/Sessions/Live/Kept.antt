-- ===== src/Sessions/Live/Kept.antt =====
-- What becomes of a hero when its player leaves.
use dream_heroes.Base.{Option, ap, false, none, some, subst, sym, true, ℕ, ◌>>=◌, ◌>>=◌, ◌∙◌, ◌≡◌}
use dream_heroes.Base.Int.{ℤ}
use dream_heroes.Base.Map.{assign, erase, find, find-assign_self, nat_key}
use dream_heroes.Hero.{DreamHero}
use dream_heroes.Sessions.Live.{
  GameWorld, LiveHero, Session, add_user, add_user_at, destroy_at, destroy_timer, greet, leave,
  on_object, on_pointer, put_game_session, remove_at, remove_user, send_client_init, session_online,
  set_object, start_destroy_time, stop_destroy_clock,
}
use mathlib.Core.Option

-- A pointer to an object that is there.
pub on_object_lem :
    (f : LiveHero → LiveHero) (h : ℕ) (v : LiveHero) (w : GameWorld)
    → find h w.objects ≡ some v
    → on_object f h w ≡ some (record w { objects = assign h (f v) w.objects })
unfolding on_object set_object
on_object_lem f h v w e = ap (λ o. set_object f h o w) e

-- The world after the session `t` of the hero `h` has left.
unfoldable pub left : ℕ → ℕ → LiveHero → GameWorld → GameWorld
left t h v w = record w { onlines = erase t w.onlines; objects = assign h (leave v) w.objects }

pub remove_user_lem :
    (t h : ℕ) (x : Session) (v : LiveHero) (w : GameWorld)
    → find t w.onlines ≡ some x
    → x.dream_hero ≡ some h
    → find h w.objects ≡ some v
    → remove_user t w ≡ some (left t h v w)
unfolding remove_user remove_at on_pointer left
remove_user_lem t h x v w known linked live =
    ap (λ o. remove_at t o w) known
    ∙ ap (λ o. on_pointer leave o (record w { onlines = erase t w.onlines })) linked
    ∙ on_object_lem leave h v (record w { onlines = erase t w.onlines }) live

-- A new session for an account whose hero is live.
unfoldable pub joined :
    (DreamHero → DreamHero) → ℕ → ℕ → ℕ → ℤ → ℕ → LiveHero → GameWorld → GameWorld
joined init t a gate channel h v w = record w {
  onlines =
      assign t
        (record {
          account = a;
          gate = gate;
          channel = channel;
          state = session_online;
          dream_hero = some h;
        })
        w.onlines;
  objects = assign h (send_client_init init (record v { session = some t })) w.objects;
}

pub add_user_lem :
    (init : DreamHero → DreamHero) (t a gate : ℕ) (channel : ℤ) (h : ℕ) (v : LiveHero)
    (w : GameWorld)
    → find t w.onlines ≡ none
    → find a w.heroes ≡ some h
    → find h w.objects ≡ some v
    → add_user init t a gate channel w ≡ some (joined init t a gate channel h v w)
unfolding add_user add_user_at greet joined put_game_session
add_user_lem init t a gate channel h v w new known live =
    ap (λ o. add_user_at init t a gate channel o w) new
    ∙ ap
        (λ o.
          greet init t
            (record {
              account = a;
              gate = gate;
              channel = channel;
              state = session_online;
              dream_hero = none;
            })
            o w)
        known
    ∙ ap
        (λ o. o >>= λ w1. some (
          put_game_session t
            (record {
              account = a;
              gate = gate;
              channel = channel;
              state = session_online;
              dream_hero = some h;
            })
            w1))
        (on_object_lem _ h v w live)

-- The session has this hero, and the hero is live, has this session and is not to be destroyed.
abbrev pub Meets : ℕ → ℕ → LiveHero → Option GameWorld → Type 0
Meets t h v none = ⊥
Meets t h v (some w) =
    (Option.map (λ (x : Session). x.dream_hero) (find t w.onlines) ≡ some (some h))
    × (find h w.objects ≡ some v)
    × (destroy_timer h w ≡ w)

-- A player who leaves and comes back before the hero is destroyed, under another number of the transaction and
-- through any gate, gets the hero that was live, with all its data as the refresh of the day makes it, and online;
-- its clock stands still, and the timer of the destruction does not touch it.
pub reconnect_keeps_hero :
    (init : DreamHero → DreamHero) (t t2 h gate : ℕ) (channel : ℤ) (x : Session) (v : LiveHero)
    (w : GameWorld)
    → find t w.onlines ≡ some x
    → x.dream_hero ≡ some h
    → find h w.objects ≡ some v
    → find x.account w.heroes ≡ some h
    → find t2 (erase t w.onlines) ≡ none
    → Meets t2 h
        (record v {
          session = some t2;
          online = true;
          destroy_clock = false;
          destroy_event = false;
          hero = init v.hero;
        })
        (remove_user t w >>= add_user init t2 x.account gate channel)
unfolding destroy_timer destroy_at joined left send_client_init leave start_destroy_time
    stop_destroy_clock
reconnect_keeps_hero init t t2 h gate channel x v w known linked live own new =
    subst (Meets t2 h _)
      (sym (
        ap (λ o. o >>= add_user init t2 x.account gate channel)
          (remove_user_lem t h x v w known linked live)
        ∙ add_user_lem init t2 x.account gate channel h (leave v) (left t h v w) new own
            (find-assign_self h (leave v) w.objects)))
      (
        ap (Option.map (λ (y : Session). y.dream_hero)) (find-assign_self t2 _ (erase t w.onlines)),
        find-assign_self h _ (assign h (leave v) w.objects),
        ap (λ o. destroy_at h o (joined init t2 x.account gate channel h (leave v) (left t h v w)))
            (find-assign_self h _ (assign h (leave v) w.objects)),
      )
