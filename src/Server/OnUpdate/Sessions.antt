-- ===== src/Server/OnUpdate/Sessions.antt =====
-- The handlers of players and of their connections keep what holds of every game (callback/*.rs).
use vangers_srv.Base.{
  ℕ, if◌then◌else◌, ◌≡◌, refl, sym, subst, arith, Bool, true, not, Option, none, some, List, [],
  ◌∷◌, ◌==◌, err, length, byte_at, word_at, is_some, lookup, modify, Option-cases, Bool-cases, inl,
  inr, modify-IsMap,
}
use vangers_srv.Base.Exec
use vangers_srv.Base.Keeps.{
  Keeps, then-Keeps, lift-then-Keeps, check-then-Keeps, expect-then, for_each-Keeps,
}
use vangers_srv.Protocol.{Packet, new, create_answer}
use vangers_srv.Protocol.Actions.{Action}
use vangers_srv.Player.{Player}
use vangers_srv.Game.{Game, bind_ids}
use vangers_srv.Game.Valid.{SameIds-IsGame}
use vangers_srv.Server.{Server, reliable, in_game, notify_game, notify_player}
use vangers_srv.Server.Tables.{
  IsServer, same_games-IsServer, in_game-IsServer, notify-IsServer, modify-AllValid,
}
use vangers_srv.Server.Errors.{
  OnUpdateError, player_not_found, set_player_data_error, register_name_error, set_game_data_error,
  set_position_error, invalid_payload_size, restore_connection_error, payload_invalid,
  set_world_error,
}
use vangers_srv.Server.OnUpdate.Queries.{answer-IsServer}
use vangers_srv.Server.Callback.Answers.{answer}
use vangers_srv.Server.Callback.SetPlayerData.{dress, set_player_data}
use vangers_srv.Server.Callback.RegisterName.{name_player, register_name}
use vangers_srv.Server.Callback.SetGameData.{configure, set_game_data}
use vangers_srv.Server.Callback.SetPosition.{move_in_game, set_position}
use vangers_srv.Server.Callback.RestoreConnection.{
  has_bind, take_over, restore, drop_client, restore_connection,
}
use vangers_srv.Server.Callback.SetWorld.{
  needs_leave_world, leave_other_world, set_world_in_game, Entry, tell_started, tell_entry,
  set_world,
}
use vangers_srv.Server.Callback.LeaveWorld.{leave_world}
use vangers_srv.Server.Callback.Tables.{leave_world-IsServer}
use vangers_srv.Server.Callback.Tables.Players.{
  move_in_game-IsGame, dress-IsGame, name_player-IsGame, configure-IsGame,
}
use vangers_srv.Server.Callback.Tables.Worlds.{set_world_in_game-IsGame}

abbrev others : ℕ → ℕ → Bool
others client_id id = not (id == client_id)

bind_ids-take_over :
    (player_id client_id : ℕ) (ps : List Player)
    → bind_ids (take_over player_id client_id ps).1 ≡ bind_ids ps
unfolding take_over
bind_ids-take_over player_id client_id [] = refl
bind_ids-take_over player_id client_id (p ∷ ps) = elim (Bool-cases (has_bind player_id p)) [
  | inl e ↦ ground arith
  | inr e ↦ ground (arith, bind_ids-take_over player_id client_id ps)
]

-- The players of one game, with the same bind ids.
restored-IsServer :
    (game_id player_id client_id : ℕ) (s : Server) (g : Game)
    → lookup game_id s.games ≡ some g
    → IsServer s
    → IsServer (record s {
      games =
          modify game_id
            (λ g'. record g' { players = (take_over player_id client_id g.players).1 })
            s.games;
    })
restored-IsServer game_id player_id client_id s g found h = record {
  unique = modify-IsMap game_id _ s.games h.unique;
  valid = modify-AllValid game_id _ s.games h.unique h.valid (λ g' found' v.
      SameIds-IsGame game_id g' _
        (
          refl,
          subst (λ x. bind_ids (take_over player_id client_id g.players).1 ≡ bind_ids x.players)
              (same_game g g' (sym found) found')
              (bind_ids-take_over player_id client_id g.players),
        )
        v.stored v);
}
  where
    same_game :
        (g g' : Game) → some g ≡ lookup game_id s.games → lookup game_id s.games ≡ some g' → g ≡ g'
    same_game g g' e e' = cc

restore-IsServer :
    (E : Type 0) (game_id player_id client_id : ℕ)
    → Keeps IsServer (restore {E = E} game_id player_id client_id)
unfolding restore
restore-IsServer E game_id player_id client_id s h = elim (Option-cases (lookup game_id s.games)) [
  | inl e ↦ rw (e, restore) h
  | inr (g, e) ↦ rw (e, restore) (restored-IsServer game_id player_id client_id s g e h)
]

tell_started-IsServer :
    (E : Type 0) (client_id : ℕ) (p : Option Packet)
    → Keeps IsServer (tell_started {E = E} client_id p)
unfolding tell_started
tell_started-IsServer E client_id none = λ s h. h
tell_started-IsServer E client_id (some p) = notify-IsServer E reliable client_id p (λ id. true)

tell_entry-IsServer :
    (E : Type 0) (client_id : ℕ) (e : Entry) → Keeps IsServer (tell_entry {E = E} client_id e)
unfolding tell_entry
tell_entry-IsServer E client_id e =
    then-Keeps IsServer (tell_started client_id e.status) _
      (tell_started-IsServer E client_id e.status)
      (λ u.
        then-Keeps IsServer (notify_game reliable client_id e.world) _
          (notify-IsServer E reliable client_id e.world (others client_id))
          (λ v.
            then-Keeps IsServer (notify_player client_id e.answer) _
              (notify-IsServer E reliable client_id e.answer (λ id. id == client_id))
              (λ w.
                for_each-Keeps IsServer (λ p. notify_player client_id p) e.shown
                  (λ p. notify-IsServer E reliable client_id p (λ id. id == client_id)))))

module _ (client_id : ℕ) where
  leave_other_world-IsServer :
      (world_id : ℕ) → Keeps IsServer (leave_other_world client_id world_id)
  unfolding leave_other_world
  leave_other_world-IsServer world_id s h =
      elim (Bool-cases (needs_leave_world client_id world_id s)) [
        | inl e ↦ rw e (
            then-Keeps IsServer (leave_world client_id) _ (leave_world-IsServer client_id)
              (λ u s h. h) s h)
        | inr e ↦ rw e h
      ]

  module _ (packet : Packet) where
    pub set_player_data-IsServer : Keeps IsServer (set_player_data client_id packet)
    unfolding set_player_data
    set_player_data-IsServer =
        then-Keeps IsServer
          (Exec.convert set_player_data_error
            (in_game client_id (err (player_not_found client_id)) (dress client_id packet.bytes)))
          _
          (in_game-IsServer client_id (err (player_not_found client_id))
            (dress client_id packet.bytes) (λ k. dress-IsGame k client_id packet.bytes))
          (λ id.
            then-Keeps IsServer (answer packet (id ∷ packet.bytes)) _ (answer-IsServer packet _)
              (λ told.
                then-Keeps IsServer (notify_game reliable client_id told) _
                  (notify-IsServer OnUpdateError reliable client_id told (others client_id))
                  (λ u s h. h)))

    pub register_name-IsServer : Keeps IsServer (register_name client_id packet)
    unfolding register_name
    register_name-IsServer =
        then-Keeps IsServer
          (Exec.convert register_name_error (
            in_game client_id (err (player_not_found client_id))
              (name_player client_id packet.bytes)))
          _
          (in_game-IsServer client_id (err (player_not_found client_id))
            (name_player client_id packet.bytes) (λ k. name_player-IsGame k client_id packet.bytes))
          (λ r. expect-then IsServer (create_answer packet (r.0 ∷ r.1)) _ (λ told.
            then-Keeps IsServer (notify_game reliable client_id told) _
              (notify-IsServer OnUpdateError reliable client_id told (others client_id))
              (λ u s h. h)))

    pub set_game_data-IsServer : Keeps IsServer (set_game_data client_id packet)
    unfolding set_game_data
    set_game_data-IsServer =
        then-Keeps IsServer
          (Exec.convert set_game_data_error
            (in_game client_id (err (player_not_found client_id)) (configure packet.bytes)))
          _
          (in_game-IsServer client_id (err (player_not_found client_id)) (configure packet.bytes)
            (λ k. configure-IsGame k client_id packet.bytes))
          (λ u s h. h)

    pub set_position-IsServer : Keeps IsServer (set_position client_id packet)
    unfolding set_position
    set_position-IsServer =
        check-then-Keeps IsServer (length packet.bytes == 6)
          (set_position_error (invalid_payload_size 6 (length packet.bytes))) _
          (lift-then-Keeps IsServer (word_at packet.bytes 0 2) _ (λ x.
            lift-then-Keeps IsServer (word_at packet.bytes 2 2) _ (λ y.
              lift-then-Keeps IsServer (word_at packet.bytes 4 2) _ (λ screen.
                then-Keeps IsServer
                  (Exec.convert set_position_error (
                    in_game client_id (err (player_not_found client_id))
                      (move_in_game client_id x y screen)))
                  _
                  (in_game-IsServer client_id (err (player_not_found client_id))
                    (move_in_game client_id x y screen)
                    (λ k. move_in_game-IsGame k client_id x y screen))
                  (λ u s h. h)))))

    pub restore_connection-IsServer : Keeps IsServer (restore_connection client_id packet)
    unfolding restore_connection
    restore_connection-IsServer =
        check-then-Keeps IsServer (length packet.bytes == 5)
          (restore_connection_error payload_invalid) _
          (lift-then-Keeps IsServer (word_at packet.bytes 0 4) _ (λ game_id.
            lift-then-Keeps IsServer (byte_at packet.bytes 4) _ (λ player_id.
              then-Keeps IsServer (restore game_id player_id client_id) _
                (restore-IsServer OnUpdateError game_id player_id client_id)
                (λ old s h.
                  lift-then-Keeps IsServer
                    (new Action.restore_connection_response ((if is_some old then 1 else 0) ∷ [])) _
                    (λ p s h. h) (record s { clients = drop_client old client_id s.clients })
                    (same_games-IsServer s _ refl h)))))

    pub set_world-IsServer : Keeps IsServer (set_world client_id packet)
    unfolding set_world
    set_world-IsServer = lift-then-Keeps IsServer (byte_at packet.bytes 0) _ (λ world_id.
        lift-then-Keeps IsServer (word_at packet.bytes 1 2) _ (λ y_size.
          then-Keeps IsServer (leave_other_world client_id world_id) _
            (leave_other_world-IsServer world_id)
            (λ u.
              then-Keeps IsServer
                (Exec.convert set_world_error (
                  in_game client_id (err (player_not_found client_id))
                    (set_world_in_game client_id packet world_id y_size)))
                _
                (in_game-IsServer client_id (err (player_not_found client_id))
                  (set_world_in_game client_id packet world_id y_size)
                  (λ k. set_world_in_game-IsGame k client_id packet world_id y_size))
                (λ e.
                  then-Keeps IsServer (tell_entry client_id e) _
                    (tell_entry-IsServer OnUpdateError client_id e) (λ v s h. h)))))
