-- ===== src/Server/Callback/AttachToGame.antt =====
-- ATTACH_TO_GAME, vangers-srv/src/server/callback/attach_to_game.rs.
pub mod Offsets
pub mod Overrun
use vangers_srv.Base.{
  ℕ, ◌+◌, ◌-◌, ◌%◌, ◌^◌, Bool, true, false, not, Option, none, some, List, [], ◌∷◌, ◌++◌, ◌==◌,
  if◌then◌else◌, length, to_le, word_at, Map, lookup, insert, modify, contains_key, Result, ok, err,
  panic,
}
use vangers_srv.Base.Exec
use vangers_srv.Base.Exec.{Exec, pure, lift, require, gets, check, convert, for_each, ◌>>=◌, ◌>>◌}
use vangers_srv.Protocol.{Packet, new, create_answer}
use vangers_srv.Protocol.Actions.{Action}
use vangers_srv.Vanject.{Vanject, vanject_bytes}
use vangers_srv.Vanject.Ids.{is_non_global_vanject}
use vangers_srv.Player.{Player, new_player}
use vangers_srv.Game.{Game, new_game, is_configured, attach_player}
use vangers_srv.Server.{Server, notify_player}
use vangers_srv.Server.Errors.{
  AttachToGameError, not_exists, id_empty, full, OnUpdateError, attach_to_game_error, OnUpdateOk,
  complete,
}
use Offsets.{no_offsets, raise_offsets, offset_bytes}

-- The game that is asked for. For 0 it is a new one: `get_game_uniq_id` and `Games::create`, which
-- leaves a game alone that has the id already.
unfoldable pub game_id : {E : Type 0} → ℕ → Exec Server E ℕ
game_id asked s =
    if asked == 0
    then (let id = (s.games_id_uniq + 1) % 2 ^ 32 in
        (
          ok id,
          record s {
            games_id_uniq = id;
            games =
                if contains_key id s.games then s.games else insert id (new_game id s.now) s.games;
          },
        ))
    else (ok asked, s)

-- `attach_player(Player::new(client_id))` in the game; the result is the game with the player.
unfoldable pub attach : ℕ → ℕ → Exec Server AttachToGameError (ℕ × Game)
attach client_id id = do
  found ← gets λ (s : Server). lookup id s.games
  g ← require found (not_exists id)
  (slot, g') ← lift (attach_player g (new_player client_id))
  player_id ← require slot (full g.id)
  Exec.update λ (s : Server). record s { games = modify id (λ _. g') s.games }
  pure (player_id, g')

-- The data of the answer.
unfoldable pub game_header : {E : Type 0} → ℕ → ℕ → Game → Result E (List ℕ)
unfolding raise_offsets offset_bytes
game_header now player_id g = elim (raise_offsets player_id g.vanjects no_offsets) [
  | ok offsets ↦ ok (
      to_le 4 g.id
      ++ ((if is_configured g then 1 else 0)
          ∷ (to_le 4 (now - g.birth_time) ++ (player_id ∷ offset_bytes offsets))))
  | err e ↦ err e
  | panic ↦ panic
]

-- A packet for each global object.
unfoldable pub global_packets : {E : Type 0} → Map Vanject → Result E (List Packet)
global_packets [] = ok []
global_packets ((id, v) ∷ m) =
    let rest = global_packets m in
    if is_non_global_vanject v.id then rest else elim (new Action.update_object (vanject_bytes v)) [
      | ok p ↦ elim rest [ ok ps ↦ ok (p ∷ ps) | err e ↦ err e | panic ↦ panic ]
      | err e ↦ err e
      | panic ↦ panic
    ]

unfoldable pub tell_answer : {E : Type 0} → ℕ → Option Packet → Exec Server E (Unit {0})
tell_answer client_id none = pure tt
tell_answer client_id (some p) = notify_player client_id p

-- What the new player is told.
unfoldable pub welcome : {E : Type 0} → ℕ → Packet → ℕ × Game → Exec Server E (Unit {0})
welcome client_id packet (player_id, g) = do
  now ← gets λ (s : Server). s.now
  header ← lift (game_header now player_id g)
  packets ← lift (global_packets g.vanjects)
  tell_answer client_id (create_answer packet header)
  unix ← gets λ (s : Server). s.unix
  time ← lift (new Action.z_time_response (to_le 4 unix))
  notify_player client_id time
  for_each (λ p. notify_player client_id p) packets

-- `attach_to_game`
unfoldable pub attach_to_game : ℕ → Packet → Exec Server OnUpdateError OnUpdateOk
attach_to_game client_id packet = do
  check (length packet.bytes == 4) (attach_to_game_error id_empty)
  asked ← lift (word_at packet.bytes 0 4)
  id ← game_id asked
  attached ← convert attach_to_game_error (attach client_id id)
  welcome client_id packet attached
  pure complete
