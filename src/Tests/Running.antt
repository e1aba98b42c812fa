-- ===== src/Tests/Running.antt =====
-- The server's loop and the entry into a world, at concrete states (server/server.rs).
use vangers_srv.Base.{err, Result, none, ℕ, List, ◌∷◌, ◌≡◌, [], refl, ok, to_le}
use mathlib.Core.List.{Perm}
use vangers_srv.Base.Sorting.{Ordered}
use vangers_srv.Base.{select}
use vangers_srv.Protocol.{Packet}
use vangers_srv.Protocol.Actions.{Action}
use vangers_srv.Server.{Client, connected, updated}
use vangers_srv.Server.Tables.{IsServer}
use vangers_srv.Server.Running.{add, told, handle, new_server, start, round}
use vangers_srv.Server.Running.Valid.{Reachable-IsServer}
use vangers_srv.Base.{arith}
use vangers_srv.Vanject.{Vanject}
use vangers_srv.Vanject.Ids.{IsI32}
use vangers_srv.Server.Callback.SetWorld.Snapshot.{values, snapshot}
use vangers_srv.Server.Callback.SetWorld.Shown.{Shown, Precedes, snapshot_exact}
use vangers_srv.Server.Callback.RegisterName.Names.{extract_auth_data}
use vangers_srv.Server.Callback.RegisterName.Bounds.{IsName, extract_auth_data-IsName}
use vangers_srv.Game.{Game}
use vangers_srv.Server.Errors.{SetWorldError, packet_too_small, item_transfer_error}
use vangers_srv.Server.OnUpdate.{handler, on_update}
use vangers_srv.Server.OnUpdate.Refused.{transfers, on_update_refused}
use vangers_srv.Server.Callback.SetWorld.{Entry, set_world_in_game}
use vangers_srv.Server.Callback.SetWorld.Entered.{Entered, set_world_in_game-Entered}
use vangers_srv.Server.{Server, find_game}
use vangers_srv.Base.{false, some, ◌++◌, ◌^◌, ◌-◌, word_at, Map, All}
use vangers_srv.Server.OnUpdate.Safe.{names, on_update_returns}
use vangers_srv.Base.{panic, ◌*◌}
use vangers_srv.Tests.Scene.{game, server, request}

abbrev joining : Client
joining = record { id = 11; connection = connected; protocol = 2 }

-- A client that connects and asks for a new game.
abbrev attaching : Packet
attaching = request Action.attach_to_game (to_le 4 0)

Reachable-IsServer_example :
    IsServer (handle (told 11 (updated attaching)) (handle (add joining) (new_server 0)).1).1
Reachable-IsServer_example =
    Reachable-IsServer (round (told 11 (updated attaching)) (round (add joining) (start 0)))

are_words : All (λ v. IsI32 v.id) (values game.vanjects)
are_words = ground arith

-- Bob enters the world of the scene.
snapshot_exact_example :
    ((hidden : List Vanject) × Perm (snapshot 1 2 game.vanjects ++ hidden) (values game.vanjects)
      × All (λ v. ¬ Shown 1 2 v) hidden)
    × All (Shown 1 2) (snapshot 1 2 game.vanjects)
    × Ordered Precedes (snapshot 1 2 game.vanjects)
snapshot_exact_example = snapshot_exact 1 2 game.vanjects are_words

-- The name "ab" and the password "c".
abbrev name_bytes : List ℕ
name_bytes = b'a' ∷ b'b' ∷ 0 ∷ b'c' ∷ 0 ∷ []

named : extract_auth_data name_bytes ≡ ok (b'a' ∷ b'b' ∷ 0 ∷ [], b'c' ∷ 0 ∷ [])
unfolding extract_auth_data vangers_srv.Base.until_nul
named = refl

extract_auth_data-IsName_example : IsName (b'a' ∷ b'b' ∷ 0 ∷ [])
extract_auth_data-IsName_example =
    extract_auth_data-IsName name_bytes (b'a' ∷ b'b' ∷ 0 ∷ []) (b'c' ∷ 0 ∷ []) named

-- Bob enters the world of the scene.
abbrev entering : Packet
entering = request Action.set_world (1 ∷ 100 ∷ 0 ∷ [])

abbrev some_entry : Result SetWorldError Entry → Entry
some_entry (ok e) = e
some_entry _ = record { status = none; world = entering; answer = entering; shown = [] }

abbrev entered : Result SetWorldError Entry × Game
entered = set_world_in_game 22 entering 1 100 game

returned : set_world_in_game 22 entering 1 100 game ≡ (ok (some_entry entered.0), entered.1)
unfolding set_world_in_game vangers_srv.Server.Callback.SetWorld.enter vangers_srv.Game.get_player
    vangers_srv.Server.Callback.SetWorld.Snapshot.snapshot_packets snapshot
    vangers_srv.Vanject.Ids.get_world vangers_srv.Vanject.Ids.is_item_type vangers_srv.Protocol.new
    vangers_srv.Vanject.vanject_bytes vangers_srv.Server.Callback.SetWorld.place
    vangers_srv.Game.place_player vangers_srv.Server.Callback.SetWorld.entry
    vangers_srv.Server.Callback.SetWorld.status_packet vangers_srv.Protocol.create_answer
    vangers_srv.Server.Callback.TotalPlayersDataQuery.total_players_data_packet
    vangers_srv.Game.set_player vangers_srv.Server.Callback.SetWorld.Snapshot.before
returned = refl

set_world_in_game-Entered_example : Entered 22 1 100 game entered.1 (some_entry entered.0)
set_world_in_game-Entered_example =
    set_world_in_game-Entered 22 1 100 entering game entered.1 (some_entry entered.0) returned

on_update_returns_example :
    (on_update 11 (request Action.register_name name_bytes) server).0 ≡ ok tt
on_update_returns_example =
    on_update_returns 11 (request Action.register_name name_bytes) server names

-- A transfer that is too short.
abbrev short_transfer : Packet
short_transfer = request Action.item_transfer (1 ∷ [])

too_short :
    (handler Action.item_transfer 22 short_transfer server).0
    ≡ err (item_transfer_error (packet_too_small 1))
unfolding handler vangers_srv.Server.Callback.ItemTransfer.item_transfer
    vangers_srv.Server.Callback.TransferPacket.parse_item_transfer
too_short = refl

on_update_refused_example : on_update 22 short_transfer server ≡ (ok tt, server)
on_update_refused_example =
    on_update_refused 22 short_transfer server (item_transfer_error (packet_too_small 1)) transfers
      too_short
