-- ===== src/Sessions/Live/Tests.antt =====
-- A player who comes for the first time and leaves.
use dream_heroes.Base.{[], ap, false, none, refl, some, subst, sym, true, ◌∷◌, ◌≡◌}
use dream_heroes.Base.Int.{pos}
use dream_heroes.Base.Map.{assign, erase, find, nat_key}
use dream_heroes.Gate.Tables.{add_data-new}
use dream_heroes.Sessions.Live.{
  GameWorld, LiveHero, Session, add_user, add_user_at, create, create_hero, destroy_at,
  destroy_hero, destroy_timer, forget_pointer, greet, is_object, leave, meet, need_create_at,
  on_object, on_pointer, parse_db_query_need_create_hero, put_game_session, remove_at, remove_user,
  send_client_init, session_online, set_object, start_destroy_time, stop_destroy_clock,
}
use dream_heroes.Sessions.Live.Linked.{IsLinked}
use dream_heroes.Sessions.Live.Reach.{
  Reach, Reach-IsLinked, Step, is_new, joins, leaves, next, starts, times_out,
}
use dream_heroes.Tests.{sample_hero}
use mathlib.Core.Option.{none-ne-some, some-injective}

abbrev empty_world : GameWorld
empty_world = record { onlines = []; heroes = []; objects = []; next_object = 0 }

abbrev greeted : Session
greeted = record {
  account = 42;
  gate = 1;
  channel = pos 3;
  state = session_online;
  dream_hero = none;
}

abbrev joined_world : GameWorld
joined_world = record empty_world { onlines = (70, greeted) ∷ [] }

abbrev newcomer : LiveHero
newcomer = record {
  account = 42;
  session = some 70;
  online = true;
  destroy_clock = false;
  destroy_event = false;
  hero = sample_hero;
}

abbrev playing_world : GameWorld
playing_world = record {
  onlines = (70, record greeted { dream_hero = some 0 }) ∷ [];
  heroes = (42, 0) ∷ [];
  objects = (0, newcomer) ∷ [];
  next_object = 1;
}

abbrev left_world : GameWorld
left_world = record playing_world {
  onlines = [];
  objects =
      (0, record newcomer { session = none; destroy_clock = true; destroy_event = true }) ∷ [];
}

first_join : add_user (λ h. h) 70 42 1 (pos 3) empty_world ≡ some joined_world
unfolding add_user add_user_at greet put_game_session find assign
first_join = refl

first_hero :
    parse_db_query_need_create_hero (λ h. h) 70 sample_hero joined_world ≡ some playing_world
unfolding parse_db_query_need_create_hero need_create_at create_hero create meet put_game_session
    on_object set_object send_client_init stop_destroy_clock find assign
first_hero = ap (λ m. some (record playing_world { heroes = m })) (add_data-new 42 0 [] refl)

first_leave : remove_user 70 playing_world ≡ some left_world
unfolding remove_user remove_at on_pointer on_object set_object leave start_destroy_time find assign
    erase
first_leave = refl

left_world-Reach : Reach left_world
unfolding find
left_world-Reach =
    next
      (next
        (next starts (
          subst (Step empty_world) first_join (
            joins (λ h. h) 70 42 1 (pos 3) empty_world
              ((λ t x e. absurd (none-ne-some x e)), (λ x e. absurd (none-ne-some x e))))))
        (subst (Step joined_world) first_hero (
          is_new (λ h. h) 70 sample_hero joined_world
            (λ x e. ap (λ (y : Session). y.dream_hero) (some-injective x greeted (sym e))))))
      (subst (Step playing_world) first_leave (leaves 70 playing_world))

-- The timer deletes the hero.
first_timer : destroy_timer 0 left_world ≡ record empty_world { next_object = 1 }
unfolding destroy_timer destroy_at destroy_hero forget_pointer is_object find erase
first_timer = refl

Reach-IsLinked_example : IsLinked (some (destroy_timer 0 left_world))
Reach-IsLinked_example = Reach-IsLinked left_world-Reach (times_out 0 left_world)
