-- ===== src/Lib.antt =====
-- The servers of DreamHeroes: the state of a hero and the requests that change it, its saving and loading, the names
-- that the game server hands out, the players' connections, and the timers.
--
-- The program is a set of servers in C++: `login`, `gateserver` (the players' connections), `gameserver` (the
-- game), `databaseserver` and the shared library `common`. A request of a player reaches `gameserver/session.cpp`
-- by way of the gate, and calls one method of `DreamHero` (gameserver/DreamHero.cpp). The method reads the
-- configuration (`gGameConfig`, gameserver/GameConfig.cpp), the ranking of the daily game (`gRankManager`,
-- gameserver/RankManager.cpp) and the promotions (`gShopSalesPromotionManager`), changes the hero, writes records
-- of what it did to the database and sends an answer. A hero is saved as a row of texts and numbers, which
-- `databaseserver/db_quest.cpp` reads back into a message for `DreamHero::set_info`. This library models `DreamHero`
-- with that way to the database and back, the lookups of `GameConfig`, `RankManager`, the names and the row of
-- `DreamHeroManager`, the gate's `UserManager`, and the pass of `common/event_table_object.cpp` over the timers.
--
-- Each method is a function from the configuration, the surroundings, the hero and the request to the hero and the
-- answer, with the source's name in snake case (`ReqBuyHero` is `req_buy_hero`). Parts of a method that need a
-- name of their own are functions before it. The files:
--
-- - Base, Base/Tests, Base/Lists, Base/Int, Base/Map: the names that all share; Boolean tests, lists, signed
--   integers, and `std::map` as an association list in the order of its keys.
-- - Error: `GameError` of message/dream_heroes.proto.
-- - Config: the tables of gameserver/GameConfig.h, their lookups and `isInToday`; the record `Env`.
-- - Hero: the state of a hero, `DreamHero` of gameserver/DreamHero.h with `MsgHeroData` of message/common.proto.
-- - Hero/Shop: `ReqBuyHero`, `ReqBuySpirit`, `ReqBuyLotion`, `ReqReliveReq`; Hero/Shop/Payment: what they take.
-- - Hero/Instance: `EnterGame`, `ReqUnlockChapter`; laws in Hero/Instance/Unlock and Hero/Instance/Enter.
-- - Hero/Exit: `ReqExitGame`; Hero/Exit/Accounting: tasks and gold; Hero/Exit/Sessions: entering and leaving;
--   Hero/Exit/Progress: the records of passed sections; Hero/Exit/Kills: the special kills.
-- - Hero/Tasks: `RadnomTaskInfo`, `RefreshTask`, `ReqReplaceTask`, `dayRefresh`; laws in Hero/Tasks/Held,
--   Hero/Tasks/Drawn, Hero/Tasks/Offered and Hero/Tasks/Refresh.
-- - Hero/Deals: `addDealWaitToPay`, `addDealPay`, `ReqCrearteDeal`, `ReqVerifyDeal` and the loops of `SaveHero` over
--   the deals; laws in Hero/Deals/Once, Hero/Deals/Closed and Hero/Deals/Kept.
-- - Hero/Rewards: `ReqConcernWeiXin`, `ReqReceiveDailyGamePrize`, `recoverSpirit`, `ReqModifyCurrentHero`,
--   `LoadFromConfig` and the small requests; laws in Hero/Rewards/Laws.
-- - Hero/Daily: `ReqResetDailyGameProgress`, `ReqUpdateDailyGameProgress`, `TryToGetGamePrize`, `DailyGamePrize`,
--   `ResetDailyGame`; laws in Hero/Daily/Laws and Hero/Daily/Prized.
-- - Hero/Lottery: `ReqDayLottery`. Laws in Hero/Lottery/Draw (the choice by weight) and Hero/Lottery/Day.
-- - Hero/Play: sequences of these requests; Hero/Shop/Solvent, Hero/Instance/Solvent, Hero/Exit/Solvent,
--   Hero/Tasks/Solvent, Hero/Daily/Solvent, Hero/Rewards/Solvent: what each request leaves of the balances.
-- - Hero/Saved/Columns: the text columns of a hero, written by `SaveHero` and read by `dbDoQueryHeroInfo`; their
--   laws in Hero/Saved/Columns/Lists and Hero/Saved/Columns/Sections. Hero/Saved/Row: the row and the message
--   `MsgHeroDataDB2GS`; Hero/Saved/RoundTrip: saving and loading. Hero/Saved/Login: `set_info`; Hero/Saved/Kept and
--   Hero/Saved/Login/Again: saving, loading and entering again. Hero/Progress, Hero/Deals/Progress and
--   Hero/Daily/Progress: what payments and prizes leave alone.
-- - Text/Number, Text/Split, Text/Fields: `%d`, `atoi`, `SplitStringA` of common/utilities.cpp, and the loops that
--   write and read lists with separators.
-- - Manager/Names: `generateStr`, `generateName`, `generateDealOrderID`, the orders, `refreshHeroTitle` and
--   `refreshDayNumber` of gameserver/DreamHeroManager.cpp; laws in Manager/Names/Fresh, Manager/Names/Shuffled and
--   Manager/Names/Distinct. Manager/Prizes: `DailyGameUpdate` of gameserver/RankManager.cpp over the live heroes.
--   Manager/Status: `save` and `Load` of the manager; Manager/Status/RoundTrip: both together.
-- - Login: the server `login`. Login/State: its configuration, sessions and messages (login/login_config.cpp,
--   login/user_session.cpp, login/account_manager.h); Login/Gates: login/gate_manager.cpp and login/gate_session.cpp, with
--   the law of the choice in Login/Gates/Idle; Login/Accounts: login/account_manager.cpp, with laws in
--   Login/Accounts/Flow and Login/Accounts/Repeated; Login/Requests: the requests of login/user_session.cpp, with a law
--   in Login/Requests/Verify.
-- - Promotions: gameserver/ShopSalesPromotionManager.cpp. Promotions/Types: the configuration and the state;
--   Promotions/Loader: its rows in gameserver/GameConfig.cpp. Promotions/Effects: what a promotion changes, summed up
--   in Promotions/Effects/Sums. Promotions/Passing: the states of a promotion; laws in Promotions/Passing/Ends,
--   Promotions/Passing/Week, Promotions/Passing/Timers and Promotions/Passing/Books. Promotions/Board: the manager with
--   its timers; Promotions/Board/Reach: the states that it can come to. `DayPass`, `apply` and `excute` call one another
--   with fuel for three calls of `DayPass`, which is enough by Promotions.Passing.Ends.
-- - Sessions: the sessions of gameserver/session.cpp, gameserver/gate_manager.cpp and gameserver/gate_session.cpp, and the
--   live heroes of gameserver/DreamHeroManager.cpp. Sessions/Live: the state, in which a pointer is the number of an
--   object, and its operations; Sessions/Live/Kept: a player who comes back; Sessions/Live/Two: two sessions of a hero;
--   Sessions/Live/Reach: the states that the server can come to, with Sessions/Live/Linked, Sessions/Live/Seats and
--   Sessions/Live/Steps for the changes. Sessions/Commands: the commands of administrators; Sessions/Commands/Level: who
--   can use them. Hero/Tasks/Level: the level while tasks are replaced.
-- - Gate/Tables: `obj_map` of common/common_template.h. Gate/Games: the choice of a game server of
--   gateserver/game_manager.cpp. Gate/Users: gateserver/user_manager.cpp and user_session.cpp; laws in
--   Gate/Users/Login and Gate/Users/Reconnect.
-- - Events: the timers and the pass `update` of common/event_table_object.cpp; Events/Due: what commands do to due
--   events; Events/Pass: one pass; Events/Fires: many of them.
-- - Rank: gameserver/RankManager.cpp. Laws in Rank/Order (the sort), Rank/Numbered (ranks and map), Rank/Update and
--   Rank/Removed; Rank/Save: `save`, with its laws.
-- - Tests, Tests/Daily, Tests/Play, Tests/Ranks, Tests/Saved, Tests/Shop, Tests/Tasks, Hero/Deals/Tests,
--   Hero/Instance/Tests, Hero/Lottery/Tests, Manager/Tests, Gate/Users/Tests, Sessions/Tests,
--   Sessions/Live/Tests, Sessions/Commands/Tests, Events/Tests: a sample hero and
--   configuration, and the theorems at them.
--
-- Numbers: an `int` is an unbounded integer ℤ, since overflow of a signed `int` is undefined in C++; `u32` and `u64`
-- are natural numbers, and an assignment of the clock to a `u32` keeps its wrap-around (`to_u32`). Where the source
-- reads or writes out of bounds or steps past an end, the function gives `none`. The loops of the source run over
-- lists, and their models recurse on those lists. Fuel stands in three places. `generate_name_from` counts the attempts
-- of `generateName` down from 101, and at zero it takes the source's own branch for a count over 100. `digits` has the
-- number itself as fuel, which has more units than digits. `update` of Events has fuel since callbacks can start
-- timers without end; its laws give the fuel with which a pass ends. `c_str` of a name ends at the zero byte that
-- `refreshHeroTitle` appends. The counts of heroes and orders of a day start at zero and only grow, and are natural
-- numbers.
--
-- Parameters: `Env` holds what comes from outside: the clock `g_server_time`, the time of today's refresh that
-- `mktime` gives, the values of `rand()` in order, and the conversions between `int` and `float` of a raised amount.
-- `Outside` holds what the saved hero needs: `localtime`, the database's `UNIX_TIMESTAMP`, the casts of numbers that
-- name no constructor, and the arithmetic of `set_info` in single precision. `random_shuffle` is an argument of
-- `refresh_day_number`, and the callbacks of the timers with the rest of the program are an argument of `update`. A
-- session of the gate is a number, which stands for its pointer.
-- What `dayRefresh` makes of a hero's data when its player comes, and what the handler of a request makes of it, are
-- arguments of the operations of the sessions. The map of `getCheapGold` and the ratings of `getGoldRechargeRatting` and `getJewelRechargeRatting` are arguments.
--
-- Not modelled: the audit records and logs (`gRecordManager`, `Mylog`), which no method reads; sending messages,
-- and the text of SQL statements around their values: a saved row is taken to be found as it was given, which a
-- quote in a name, or a row longer than the buffer of 4096 bytes in `SaveHero`, would break; the boxes that
-- `EnterGame` copies from the configuration into its answer; the messages' fields that no method reads; loading of
-- the configuration from the database, besides the rows of promotions; the timers of `DreamHeroManager`; `removeUsers`,
-- the pings and the forwarding of messages in the gate, and its timers, other than those of lost connections and the callbacks that
-- the others run;
-- several holders of events and their reference counts; the command for the level of another hero and the
-- registration of gates at the game server; the bans of the login server, and the libraries (protobuf, asio, curl, MySQL).
pub mod Base
pub mod Config
pub mod Error
pub mod Events
pub mod Gate
pub mod Hero
pub mod Login
pub mod Manager
pub mod Promotions
pub mod Rank
pub mod Sessions
pub mod Tests
pub mod Text
