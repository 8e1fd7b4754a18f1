-- ===== src/Sessions/Live.antt =====
-- Sessions and live heroes, which point at one another.
pub mod Kept
pub mod Linked
pub mod Seats
pub mod Reach
pub mod Steps
mod Tests
pub mod Two
use dream_heroes.Base.{
  Bool, Option, [], false, if◌then◌else◌, none, some, true, ℕ, ◌&&◌, ◌+◌, ◌==◌, ◌>>=◌, ◌∷◌,
}
use dream_heroes.Base.Int.{ℤ}
use dream_heroes.Base.Map.{Map, assign, erase, find, nat_key}
use dream_heroes.Gate.Tables.{add_data}
use dream_heroes.Hero.{DreamHero}

pub data GameSessionState : Type 0 where
  session_online session_offline : GameSessionState

-- `Session`, under its number of the transaction. `dream_hero` is a pointer: the number of an object below.
pub record Session : Type 0 where
  pub account : ℕ
  pub gate : ℕ
  pub channel : ℤ
  pub state : GameSessionState
  pub dream_hero : Option ℕ

-- The part of an object of the class `DreamHero` that the sessions read and write, with the hero's data.
-- `destroy_event` tells whether `gEventMgr` has an event of the type EVENT_DESTROY_PLAYER_ for it.
pub record LiveHero : Type 0 where
  pub account : ℕ
  pub session : Option ℕ
  pub online : Bool
  pub destroy_clock : Bool
  pub destroy_event : Bool
  pub hero : DreamHero

-- `onlines` is `m_Onlines` of the gate manager, `heroes` is `_heroes` of the hero manager, and `objects` are the
-- heroes that have been created and not deleted, with the number of the next one.
pub record GameWorld : Type 0 where
  pub onlines : Map ℕ Session
  pub heroes : Map ℕ ℕ
  pub objects : Map ℕ LiveHero
  pub next_object : ℕ

-- `StartDestroyTime`
start_destroy_time : LiveHero → LiveHero
start_destroy_time v = record v { destroy_clock = true; destroy_event = true }

-- `StopDestroyClock`
stop_destroy_clock : LiveHero → LiveHero
stop_destroy_clock v = record v { destroy_clock = false; destroy_event = false }

set_object : (LiveHero → LiveHero) → ℕ → Option LiveHero → GameWorld → Option GameWorld
set_object f h none w = none
set_object f h (some v) w = some (record w { objects = assign h (f v) w.objects })

-- A call of a method through a pointer: there is no result where the object has been deleted.
pub on_object : (LiveHero → LiveHero) → ℕ → GameWorld → Option GameWorld
unfolding set_object
on_object f h w = set_object f h (find h w.objects) w

pub on_pointer : (LiveHero → LiveHero) → Option ℕ → GameWorld → Option GameWorld
unfolding on_object
on_pointer f none w = some w
on_pointer f (some h) w = on_object f h w

pub put_game_session : ℕ → Session → GameWorld → GameWorld
put_game_session t x w = record w { onlines = assign t x w.onlines }

set_online : Bool → LiveHero → LiveHero
set_online b v = record v { online = b }

-- `SendClientInit` on an object: `init` is what `dayRefresh` makes of the hero's data.
pub send_client_init : (DreamHero → DreamHero) → LiveHero → LiveHero
unfolding stop_destroy_clock
send_client_init init v = record (stop_destroy_clock v) { hero = init v.hero; online = true }

-- A hero that is live already when its player comes: the constructor of `Session`.
greet : (DreamHero → DreamHero) → ℕ → Session → Option ℕ → GameWorld → Option GameWorld
unfolding on_object put_game_session send_client_init
greet init t x none w = some (put_game_session t x w)
greet init t x (some h) w = do
  w1 ← on_object (λ v. send_client_init init (record v { session = some t })) h w
  some (put_game_session t (record x { dream_hero = some h }) w1)

-- `addUser` with `set_channel` of `parseAddUser` behind it: there is no result where `addUser` answers with a null
-- pointer, which `parseAddUser` follows.
add_user_at :
    (DreamHero → DreamHero) → ℕ → ℕ → ℕ → ℤ → Option Session → GameWorld → Option GameWorld
unfolding greet on_pointer set_online put_game_session
add_user_at init t a gate channel none w =
    greet init t
      (record {
        account = a;
        gate = gate;
        channel = channel;
        state = session_online;
        dream_hero = none;
      })
      (find a w.heroes) w
add_user_at init t a gate channel (some x) w =
    if (x.gate == gate) && (x.account == a)
    then on_pointer (set_online true) x.dream_hero
        (put_game_session t (record x { state = session_online; channel = channel }) w)
    else none

pub add_user : (DreamHero → DreamHero) → ℕ → ℕ → ℕ → ℤ → GameWorld → Option GameWorld
unfolding add_user_at
add_user init t a gate channel w = add_user_at init t a gate channel (find t w.onlines) w

offline_at : ℕ → Option Session → GameWorld → Option GameWorld
unfolding on_pointer set_online put_game_session
offline_at t none w = some w
offline_at t (some x) w =
    on_pointer (set_online false) x.dream_hero
      (put_game_session t (record x { state = session_offline }) w)

-- `offlineUser`
pub offline_user : ℕ → GameWorld → Option GameWorld
unfolding offline_at
offline_user t w = offline_at t (find t w.onlines) w

-- `close` and the destructor of `Session`.
pub leave : LiveHero → LiveHero
unfolding start_destroy_time
leave v = record (start_destroy_time v) { session = none }

remove_at : ℕ → Option Session → GameWorld → Option GameWorld
unfolding on_pointer leave
remove_at t none w = some w
remove_at t (some x) w = on_pointer leave x.dream_hero (record w { onlines = erase t w.onlines })

-- `removeUser`
pub remove_user : ℕ → GameWorld → Option GameWorld
unfolding remove_at
remove_user t w = remove_at t (find t w.onlines) w

-- The loop of `removeUserByGate`, over the sessions that there are.
pub remove_of_gate : ℕ → Map ℕ Session → GameWorld → Option GameWorld
remove_of_gate gate [] w = some w
remove_of_gate gate ((t, x) ∷ l) w = do
  w1 ← if x.gate == gate then remove_user t w else some w
  remove_of_gate gate l w1

-- `removeUserByGate`
pub remove_user_by_gate : ℕ → GameWorld → Option GameWorld
unfolding remove_of_gate
remove_user_by_gate gate w = remove_of_gate gate w.onlines w

-- What `CreateHero` writes into a hero, whether it is new or not.
pub adopt : ℕ → ℕ → LiveHero → LiveHero
unfolding stop_destroy_clock
adopt t a v = record (stop_destroy_clock v) { session = some t; account = a }

-- A new object, in the map under the account `key`.
pub create : ℕ → ℕ → ℕ → DreamHero → GameWorld → GameWorld × ℕ
unfolding adopt
create t a key hero w =
    let v : LiveHero = record {
      account = a;
      session = some t;
      online = false;
      destroy_clock = false;
      destroy_event = false;
      hero = hero;
    } in
    (
      record w {
        heroes = add_data key w.next_object w.heroes;
        objects = assign w.next_object v w.objects;
        next_object = w.next_object + 1;
      },
      w.next_object,
    )

create_hero : ℕ → ℕ → ℕ → DreamHero → Option ℕ → GameWorld → Option (GameWorld × ℕ)
unfolding create on_object adopt
create_hero t a key hero none w = some (create t a key hero w)
create_hero t a key hero (some h) w = do w1 ← on_object (adopt t a) h w; some (w1, h)

-- The hero gets its session, and `SendClientInit` follows.
pub meet : (DreamHero → DreamHero) → ℕ → Session → ℕ → GameWorld → Option GameWorld
unfolding on_object send_client_init put_game_session
meet init t x h w =
    on_object (send_client_init init) h (put_game_session t (record x { dream_hero = some h }) w)

answer_session :
    (DreamHero → DreamHero) → ℕ → ℕ → DreamHero → Session → Option ℕ → GameWorld → Option GameWorld
unfolding create_hero on_object send_client_init meet
answer_session init t key hero x (some h) w = on_object (send_client_init init) h w
answer_session init t key hero x none w = do
  (w1, h) ← create_hero t x.account key hero (find x.account w.heroes) w
  meet init t x h w1

answer_at :
    (DreamHero → DreamHero) → ℕ → ℕ → DreamHero → Option Session → GameWorld → Option GameWorld
unfolding answer_session
answer_at init t key hero none w = some w
answer_at init t key hero (some x) w = answer_session init t key hero x x.dream_hero w

-- `praseDBQueryHeroInfo` with `CreateHero`: the database's answer for the session, with the account and the data
-- that stand in it, as `set_info` reads them.
pub prase_db_query_hero_info :
    (DreamHero → DreamHero) → ℕ → ℕ → DreamHero → GameWorld → Option GameWorld
unfolding answer_at
prase_db_query_hero_info init t key hero w = answer_at init t key hero (find t w.onlines) w

pub need_create_at :
    (DreamHero → DreamHero) → ℕ → DreamHero → Option Session → GameWorld → Option GameWorld
unfolding create_hero meet
need_create_at init t hero none w = some w
need_create_at init t hero (some x) w = do
  (w1, h) ← create_hero t x.account x.account hero (find x.account w.heroes) w
  meet init t x h w1

-- `parseDBQueryNeedCreateHero` with the other `CreateHero`: the database does not know the account, and `hero` is
-- what `LoadFromConfig` gives.
pub parse_db_query_need_create_hero :
    (DreamHero → DreamHero) → ℕ → DreamHero → GameWorld → Option GameWorld
unfolding need_create_at
parse_db_query_need_create_hero init t hero w = need_create_at init t hero (find t w.onlines) w

forget : Option Session → ℕ → GameWorld → GameWorld
unfolding put_game_session
forget none t w = w
forget (some x) t w = put_game_session t (record x { dream_hero = none }) w

forget_pointer : Option ℕ → GameWorld → GameWorld
unfolding forget
forget_pointer none w = w
forget_pointer (some t) w = forget (find t w.onlines) t w

is_object : ℕ → Option ℕ → Bool
is_object h none = false
is_object h (some other) = other == h

-- `DestroyHero`
destroy_hero : ℕ → ℕ → GameWorld → GameWorld
unfolding is_object
destroy_hero h a w =
    if is_object h (find a w.heroes)
    then record w { objects = erase h w.objects; heroes = erase a w.heroes }
    else w

-- `DreamHero::Destroy`, which the timer calls.
destroy_at : ℕ → Option LiveHero → GameWorld → GameWorld
unfolding destroy_hero forget_pointer
destroy_at h none w = w
destroy_at h (some v) w =
    if v.destroy_event then destroy_hero h v.account (forget_pointer v.session w) else w

pub destroy_timer : ℕ → GameWorld → GameWorld
unfolding destroy_at
destroy_timer h w = destroy_at h (find h w.objects) w

-- A request that finds the session's hero, whose handler makes `handle` of the hero's data; the handlers of the
-- session do nothing where it has no hero.
user_msg_at : (DreamHero → DreamHero) → Option Session → GameWorld → Option GameWorld
unfolding on_pointer
user_msg_at handle none w = some w
user_msg_at handle (some x) w = on_pointer (λ v. record v { hero = handle v.hero }) x.dream_hero w

-- `parseUserMsg`
pub user_msg : (DreamHero → DreamHero) → ℕ → GameWorld → Option GameWorld
unfolding user_msg_at
user_msg handle t w = user_msg_at handle (find t w.onlines) w
