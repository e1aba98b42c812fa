-- ===== src/Server/Callback/GamesListQuery.antt =====
-- GAMES_LIST_QUERY, vangers-srv/src/server/callback/games_list_query.rs.
use vangers_srv.Base.{
  ℕ, ◌+◌, ◌-◌, ◌/◌, ◌%◌, ◌^◌, none, some, List, [], ◌∷◌, ◌++◌, ◌==◌, if◌then◌else◌, length, take,
  to_le, digits, decimal, two_digits, Map,
}
use vangers_srv.Base.Exec.{Exec, gets, ◌>>=◌}
use vangers_srv.Protocol.{Packet}
use vangers_srv.Player.{last}
use vangers_srv.Game.{Game, is_configured, get_gmtype}
use vangers_srv.Game.Config.{GameType, van_war, mechosoma, passembloss, mir_rage}
use vangers_srv.Server.{Server}
use vangers_srv.Server.Errors.{OnUpdateError, OnUpdateOk}
use vangers_srv.Server.Callback.Answers.{respond}

abbrev pub type_letter : GameType → ℕ
type_letter mechosoma = b'M'
type_letter van_war = b'V'
type_letter passembloss = b'P'
type_letter mir_rage = b'R'
type_letter _ = b'?'

-- `"[Rust-SRV] "`
abbrev pub title_head : List ℕ
title_head = b'[' ∷ b'R' ∷ b'u' ∷ b's' ∷ b't' ∷ b'-' ∷ b'S' ∷ b'R' ∷ b'V' ∷ b']' ∷ b' ' ∷ []

-- `b"[UNDEFINED TITLE]"`
abbrev pub undefined_title : List ℕ
undefined_title =
    b'[' ∷ b'U' ∷ b'N' ∷ b'D' ∷ b'E' ∷ b'F' ∷ b'I' ∷ b'N' ∷ b'E' ∷ b'D' ∷ b' ' ∷ b'T' ∷ b'I' ∷ b'T'
    ∷ b'L' ∷ b'E' ∷ b']' ∷ []

-- `Uptime`, as it is displayed: utils/uptime.rs.
unfoldable pub uptime_text : ℕ → List ℕ
unfolding digits
uptime_text time =
    decimal (time / 3600 % 24)
    ++ (b':' ∷ (two_digits (time / 60 % 60) ++ (b':' ∷ two_digits (time % 60))))

-- `": {} {} {}"` of the number of players, the letter of the type and the age of the game.
unfoldable pub title_tail : ℕ → Game → List ℕ
unfolding digits uptime_text
title_tail now g =
    b':'
    ∷ b' '
    ∷ (decimal (length g.players)
        ++ (b' ' ∷ type_letter (get_gmtype g) ∷ b' ' ∷ uptime_text (now - g.birth_time)))

-- The game's name without its null byte.
unfoldable pub title : List ℕ → List ℕ
title name = elim (last name) [
  | none ↦ undefined_title
  | some b ↦ if b == 0 then take (length name - 1) name else name
]

unfoldable pub game_entry : ℕ → Game → List ℕ
unfolding title title_tail
game_entry now g = to_le 4 g.id ++ (title_head ++ (title g.name ++ (title_tail now g ++ 0 ∷ [])))

-- The loop: the number of games that are listed, and their entries.
unfoldable pub list_games : ℕ → Map Game → ℕ × List ℕ
unfolding game_entry
list_games now [] = (0, [])
list_games now ((k, g) ∷ games) =
    let (count, rest) = list_games now games in
    if is_configured g then (count + 1, game_entry now g ++ rest) else (count, rest)

-- `games_list_query`; the count is a `u8`.
unfoldable pub games_list_query : ℕ → Packet → Exec Server OnUpdateError OnUpdateOk
games_list_query client_id packet = do
  (count, entries) ← gets λ (s : Server). list_games s.now s.games
  respond packet (count % 2 ^ 8 ∷ entries)
