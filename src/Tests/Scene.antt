-- ===== src/Tests/Scene.antt =====
-- A server with one game, two players in the same world and a few objects.
use vangers_srv.Base.{ℕ, ◌+◌, ◌*◌, ◌^◌, some, List, [], ◌∷◌, to_le}
use vangers_srv.Protocol.{Packet}
use vangers_srv.Protocol.Actions.{Action}
use vangers_srv.Vanject.{Vanject}
use vangers_srv.Vanject.Nid
use vangers_srv.Player.{World, Player, new_player, gaming}
use vangers_srv.Game.{Game, new_game}
use vangers_srv.Server.{Server, connected}

-- `make_id` of the tests: station, world, type and counter.
abbrev pub make_id : ℕ → ℕ → ℕ → ℕ → ℕ
make_id station world nid counter = station * 2 ^ 26 + world * 2 ^ 22 + nid + counter

abbrev pub stuff_id : ℕ
stuff_id = make_id 1 1 Nid.stuff 92

abbrev pub device_id : ℕ
device_id = make_id 1 1 Nid.device 92

abbrev pub slot_id : ℕ
slot_id = make_id 1 1 Nid.slot 7

abbrev pub object : ℕ → ℕ → List ℕ → Vanject
object id owner body = record {
  id = id;
  player_bind_id = owner;
  time = 6;
  pos = record { x = 10; y = 20 };
  radius = 15;
  body = body;
}

-- The body of an item begins with a byte and the id of its other form.
abbrev pub item_body : ℕ → List ℕ
item_body linked = 7 ∷ to_le 4 linked

abbrev pub world : World
world = record { id = 1; y_size = 100 }

abbrev pub alice : Player
alice = record (new_player 11) { bind = some 1; world = some world; status = gaming }

abbrev pub bob : Player
bob = record (new_player 22) { bind = some 2; world = some world; status = gaming }

-- The stuff lies in the world; the slot is Alice's.
abbrev pub game : Game
game = record (new_game 1 0) {
  players = alice ∷ bob ∷ [];
  worlds = world ∷ [];
  vanjects =
      (stuff_id, object stuff_id 1 (item_body device_id))
      ∷ (slot_id, object slot_id 1 (1 ∷ []))
      ∷ [];
}

abbrev pub server : Server
server = record {
  games = (1, game) ∷ [];
  games_id_uniq = 1;
  clients =
      record { id = 11; connection = connected; protocol = 2 }
      ∷ record { id = 22; connection = connected; protocol = 2 }
      ∷ [];
  sent = [];
  now = 0;
  unix = 1700000000;
}

-- A packet of some bytes.
abbrev pub request : Action → List ℕ → Packet
request a bytes = record { event_size = 1; action = a; real_action = 0; bytes = bytes }
