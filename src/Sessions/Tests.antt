-- ===== src/Sessions/Tests.antt =====
-- One hero whose player leaves and comes back, and one that is played from two sessions.
use dream_heroes.Base.{[], arith, false, refl, some, true, ◌>>=◌, ◌>>=◌, ◌∷◌}
use dream_heroes.Base.Int.{pos}
use dream_heroes.Base.Map.{erase, find, nat_key}
use dream_heroes.Hero.{DreamHero}
use dream_heroes.Sessions.Live.{
  GameWorld, LiveHero, Session, add_user, destroy_timer, remove_user, session_online,
}
use dream_heroes.Sessions.Live.Kept.{Meets, reconnect_keeps_hero}
use dream_heroes.Sessions.Live.Two.{Dangles, older_session_leaves_dangling}
use dream_heroes.Tests.{sample_hero}
use mathlib.Core.Option

abbrev playing : Session
playing = record {
  account = 42;
  gate = 1;
  channel = pos 3;
  state = session_online;
  dream_hero = some 0;
}

abbrev played : LiveHero
played = record {
  account = 42;
  session = some 70;
  online = true;
  destroy_clock = false;
  destroy_event = false;
  hero = sample_hero;
}

abbrev sample_world : GameWorld
sample_world = record {
  onlines = (70, playing) ∷ [];
  heroes = (42, 0) ∷ [];
  objects = (0, played) ∷ [];
  next_object = 1;
}

-- A refresh that empties the count of the day's tasks.
abbrev refreshed : DreamHero → DreamHero
refreshed hero = record hero { current_task_count = pos 0 }

reconnect_keeps_hero_example :
    Meets 71 0
      (record played {
        session = some 71;
        online = true;
        destroy_clock = false;
        destroy_event = false;
        hero = refreshed sample_hero;
      })
      (remove_user 70 sample_world >>= add_user refreshed 71 42 2 (pos 4))
unfolding find erase
reconnect_keeps_hero_example =
    reconnect_keeps_hero refreshed 70 71 0 2 (pos 4) playing played sample_world refl refl refl refl
      refl

older_session_leaves_dangling_example : Dangles 71 0 (
    Option.map
      (destroy_timer 0)
      (add_user refreshed 71 42 2 (pos 4) sample_world >>= remove_user 70))
unfolding find
older_session_leaves_dangling_example =
    older_session_leaves_dangling refreshed 70 71 0 2 (pos 4) playing played sample_world
      (λ e. ground arith) refl refl refl refl refl refl
