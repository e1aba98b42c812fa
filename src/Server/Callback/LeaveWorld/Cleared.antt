-- ===== src/Server/Callback/LeaveWorld/Cleared.antt =====
-- What a player that leaves a world takes along (callback/leave_world.rs).
use vangers_srv.Base.{
  ℕ, ◌+◌, ◌<◌, ◌^◌, ◌≡◌, refl, ◌∙◌, not, none, some, [], ◌∷◌, ◌++◌, map, arith, if◌then◌else◌,
  length, to_le, Map, lookup, contains_key, retain_keys, lookup-retain_keys, IsMap, passes,
  contains_key-select, ok,
}
use vangers_srv.Protocol.{Packet, packet_of}
use vangers_srv.Protocol.Framing.{new_fits}
use vangers_srv.Protocol.Actions.{Action}
use vangers_srv.Vanject.{Vanject}
use vangers_srv.Player.{Player, World}
use vangers_srv.Game.{Game, get_player, set_player}
use vangers_srv.Game.Players.{get_player_client, get_player-set_player}
use vangers_srv.Server.Errors.{LeaveWorldError}
use vangers_srv.Server.Callback.LeaveWorld.Leaver.{leaver}
use vangers_srv.Server.Callback.LeaveWorld.{
  should_delete_on_leave_world, deleted_packet, deleted_packets, to_delete, clear, leave_in_game,
}

-- The packet of an object that goes.
abbrev pub goes : ℕ → ℕ × Vanject → Packet
goes bind_id (id, v) = packet_of Action.delete_object (to_le 4 id ++ (bind_id ∷ to_le 4 v.time))

deleted_packet_ok :
    {E : Type 0} (bind_id id : ℕ) (v : Vanject)
    → deleted_packet {E = E} bind_id id v ≡ ok (goes bind_id (id, v))
unfolding deleted_packet
deleted_packet_ok {E} bind_id id v = new_fits {E = E} Action.delete_object _ (short id v.time)
  where
    short : (a b : ℕ) → length (to_le 4 a ++ (bind_id ∷ to_le 4 b)) + 1 < 2 ^ 15
    short a b = omega arith

deleted_packets_ok :
    {E : Type 0} (bind_id : ℕ) (m : Map Vanject)
    → deleted_packets {E = E} bind_id m ≡ ok (map (goes bind_id) m)
unfolding deleted_packets
deleted_packets_ok bind_id [] = refl
deleted_packets_ok {E} bind_id ((id, v) ∷ m) =
    ground (arith, deleted_packet_ok {E = E} bind_id id v, deleted_packets_ok {E = E} bind_id m)

-- The game that the player left.
abbrev pub cleared : Game → ℕ → ℕ → Player → Game
cleared g client_id bind_id player = record g {
  players = set_player client_id (record player { world = none }) g.players;
  vanjects = retain_keys (λ id. not (contains_key id (to_delete bind_id g.vanjects))) g.vanjects;
}

-- Once the player is known, leaving cannot go wrong.
pub leave_cleared :
    (client_id : ℕ) (g : Game) (bind_id : ℕ) (player : Player)
    → leaver client_id g ≡ ok (bind_id, player)
    → leave_in_game client_id g ≡ (
      ok (bind_id, map (goes bind_id) (to_delete bind_id g.vanjects)),
      cleared g client_id bind_id player,
    )
unfolding leave_in_game clear
leave_cleared client_id g bind_id player e =
    rw (e, deleted_packets_ok {E = LeaveWorldError} bind_id (to_delete bind_id g.vanjects)) refl

pub cleared-lookup :
    (g : Game) (client_id bind_id : ℕ) (player : Player) (id : ℕ)
    → IsMap g.vanjects
    → lookup id (cleared g client_id bind_id player).vanjects ≡ (
        if passes (should_delete_on_leave_world bind_id) (lookup id g.vanjects)
        then none
        else lookup id g.vanjects)
cleared-lookup g client_id bind_id player id h =
    lookup-retain_keys (λ i. not (contains_key i (to_delete bind_id g.vanjects))) id g.vanjects
    ∙ ground (arith, contains_key-select (should_delete_on_leave_world bind_id) id g.vanjects h)

leaver_ok :
    (client_id : ℕ) (g : Game) (player : Player) (bind_id : ℕ) (world : World)
    → get_player client_id g.players ≡ some player
    → player.bind ≡ some bind_id
    → player.world ≡ some world
    → leaver client_id g ≡ ok (bind_id, player)
unfolding leaver
leaver_ok client_id g player bind_id world found bound placed = ground arith

-- When a bound player in a world leaves it, in a game whose table has every id once, the handler
-- returns the bind id and one deletion packet for each object that goes, the player is then in no
-- world, and the objects that are gone are exactly those that the rule of leaving names; all
-- others are as they were.
pub left :
    (client_id : ℕ) (g : Game) (player : Player) (bind_id : ℕ) (world : World)
    → IsMap g.vanjects
    → get_player client_id g.players ≡ some player
    → player.bind ≡ some bind_id
    → player.world ≡ some world
    → ((leave_in_game client_id g).0
        ≡ ok (bind_id, map (goes bind_id) (to_delete bind_id g.vanjects)))
      × (get_player client_id (leave_in_game client_id g).1.players
          ≡ some (record player { world = none }))
      × ((id : ℕ)
          → lookup id (leave_in_game client_id g).1.vanjects ≡ (
              if passes (should_delete_on_leave_world bind_id) (lookup id g.vanjects)
              then none
              else lookup id g.vanjects))
left client_id g player bind_id world h found bound placed =
    rw
      (leave_cleared client_id g bind_id player
        (leaver_ok client_id g player bind_id world found bound placed))
      (
        refl,
        get_player-set_player client_id (record player { world = none }) g.players player
            (get_player_client client_id g.players player found) found,
        λ id. cleared-lookup g client_id bind_id player id h,
      )
