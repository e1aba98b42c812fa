-- ===== src/Server/Callback/TopListQuery.antt =====
-- TOP_LIST_QUERY, vangers-srv/src/server/callback/top_list_query.rs.
pub mod Ratings
pub mod Best
use Prim.Native.Nat.{Ordering, lt, eq, gt}
use vangers_srv.Base.{
  ℕ, ◌^◌, ◌%◌, Bool, true, false, ◌&&◌, Option, none, some, List, [], ◌∷◌, ◌++◌, ◌==◌,
  if◌then◌else◌, length, take, to_le, get_elem?, Map, Result, ok, err, panic,
}
use vangers_srv.Base.Sorting.{sort_by}
use vangers_srv.Base.Exec.{Exec, require, gets, ◌>>=◌}
use vangers_srv.Protocol.{Packet}
use vangers_srv.Player.{Player}
use vangers_srv.Player.Body.{body_from_slice}
use vangers_srv.Game.{Game, RemovedPlayer, is_configured, get_gmtype}
use vangers_srv.Game.Config.{game_type_code}
use vangers_srv.Server.{Server}
use vangers_srv.Server.Errors.{
  TopListQueryError, mode_empty, OnUpdateError, top_list_query_error, OnUpdateOk,
}
use vangers_srv.Server.Callback.Answers.{respond}
use Ratings.{compare_ratings}

abbrev pub top_list_limit : ℕ
top_list_limit = 10

-- `TopEntry`
pub record TopEntry : Type 0 where
  pub name : List ℕ
  pub rating : ℕ

-- The players that have a name and a body.
unfoldable pub current : List Player → List TopEntry
current [] = []
current (p ∷ ps) = elim p.auth [
  | none ↦ current ps
  | some auth ↦ elim p.body [
    | none ↦ current ps
    | some body ↦ record { name = auth.name; rating = body.rating } ∷ current ps
  ]
]

-- The rating of a body that was kept as bytes; reading it never panics.
unfoldable pub kept_rating : List ℕ → Option ℕ
unfolding body_from_slice
kept_rating bytes = elim (body_from_slice {E = OnUpdateError} bytes) [
  | ok body ↦ elim body [ none ↦ none | some b ↦ some b.rating ]
  | err e ↦ none
  | panic ↦ none
]

-- The players that left.
unfoldable pub removed : List RemovedPlayer → List TopEntry
unfolding kept_rating
removed [] = []
removed (r ∷ rs) = elim (kept_rating r.body) [
  | none ↦ removed rs
  | some rating ↦ record { name = r.name; rating = rating } ∷ removed rs
]

-- `game.is_configured() && game.get_gmtype() as u8 == mp_game`
abbrev pub is_of_mode : ℕ → Game → Bool
is_of_mode mp_game g = is_configured g && game_type_code (get_gmtype g) % 2 ^ 8 == mp_game

unfoldable pub entries : ℕ → Map Game → List TopEntry
unfolding current removed game_type_code
entries mp_game [] = []
entries mp_game ((k, g) ∷ games) =
    let rest = entries mp_game games in
    if is_of_mode mp_game g then current g.players ++ (removed g.removed_players ++ rest) else rest

-- An entry does not come behind another that compares as not greater: the higher rating is first.
unfoldable pub comes_before : TopEntry → TopEntry → Bool
unfolding compare_ratings
comes_before e x = elim (compare_ratings x.rating e.rating) [ gt ↦ false | _ ↦ true ]

-- `sort_by`
unfoldable pub sort_entries : List TopEntry → List TopEntry
unfolding sort_by comes_before
sort_entries es = sort_by comes_before es

unfoldable pub entry_bytes : List TopEntry → List ℕ
entry_bytes [] = []
entry_bytes (e ∷ es) = e.name ++ (to_le 4 e.rating ++ entry_bytes es)

-- The ten best.
unfoldable pub top_entries : ℕ → Map Game → List TopEntry
unfolding entries sort_entries
top_entries mp_game games = take top_list_limit (sort_entries (entries mp_game games))

-- `top_list_query`
unfoldable pub top_list_query : ℕ → Packet → Exec Server OnUpdateError OnUpdateOk
unfolding top_entries entry_bytes
top_list_query client_id packet = do
  mp_game ← require (get_elem? packet.bytes 0) (top_list_query_error mode_empty)
  best ← gets λ (s : Server). top_entries mp_game s.games
  respond packet (mp_game ∷ length best ∷ entry_bytes best)
