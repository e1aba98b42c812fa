-- ===== src/Tests/Codecs.antt =====
-- Packets and objects at concrete values (vangers-srv/src/{protocol,vanject}.rs).
use vangers_srv.Base.{
  ℕ, ◌≡◌, ◌≢◌, refl, arith, ◌∙◌, ap, Bool, true, false, List, [], ◌∷◌, ◌++◌, to_le, IsBytes, IsByte,
  IsOk, Option, some, none, ok, err, ◌>>=◌, length, contains, drop, take, sub_list, if◌then◌else◌,
  ltb, leb, ◌==◌, word,
}
use vangers_srv.Protocol.{Packet, packet_of, as_bytes, from_slice}
use vangers_srv.Protocol.Actions.{Action}
use vangers_srv.Protocol.Framing.{
  IsPacket, packet_of-IsPacket, from_slice-as_bytes, as_bytes-from_slice,
}
use vangers_srv.Vanject.{
  Vanject, VanjectError, slice_too_small, mismatch_id, create_from_slice, update_from_slice,
  vanject_bytes,
}
use vangers_srv.Vanject.Ids.{decode, get_vanject_type}
use vangers_srv.Vanject.Fields.{pack, decode-pack}
use vangers_srv.Vanject.Slices.{updated}
use vangers_srv.Vanject.Relay.{relay, body_start}
use vangers_srv.Server.Errors.{OnUpdateError}
use vangers_srv.Tests.Scene.{object, slot_id}

abbrev hello : Packet
hello = packet_of Action.server_time (1 ∷ 2 ∷ [])

hello-IsPacket : IsPacket hello
hello-IsPacket =
    packet_of-IsPacket Action.server_time (1 ∷ 2 ∷ []) (omega arith, (omega arith, tt))
      (omega arith)

from_slice-as_bytes_example : (as_bytes {E = OnUpdateError} hello >>= from_slice) ≡ ok hello
from_slice-as_bytes_example = from_slice-as_bytes hello hello-IsPacket

-- A frame whose type byte names no action.
as_bytes-from_slice_example :
    (from_slice {E = OnUpdateError} (9 ∷ 0 ∷ 77 ∷ 1 ∷ 2 ∷ []) >>= as_bytes)
    ≡ ok (to_le 2 3 ++ (77 ∷ 1 ∷ 2 ∷ []))
as_bytes-from_slice_example = as_bytes-from_slice 9 0 77 (1 ∷ 2 ∷ []) (omega arith) (omega arith)

decode-pack_example : decode (pack 0 3 2 8 92) ≡ record {
  id = pack 0 3 2 8 92;
  station = 3;
  world = 2;
  type_id = 8;
  counter = 92;
  global = false;
  private = true;
  players_object = false;
  static_object = false;
}
decode-pack_example =
    decode-pack 0 3 2 8 92 (omega arith) (omega arith) (omega arith) (omega arith) (omega arith)

abbrev slot_bytes : List ℕ
slot_bytes = to_le 4 slot_id ++ (7 ∷ 0 ∷ 0 ∷ 0 ∷ 11 ∷ 0 ∷ 21 ∷ 0 ∷ 15 ∷ 0 ∷ 5 ∷ [])

slot_bytes-IsBytes : IsBytes slot_bytes
slot_bytes-IsBytes = ground arith

abbrev slot_after : Vanject
slot_after = updated (object slot_id 1 []) slot_bytes 12

slot_parsed : update_from_slice (object slot_id 1 []) slot_bytes ≡ ok slot_after
unfolding update_from_slice vangers_srv.Base.word_at vangers_srv.Vanject.pos_at
    vangers_srv.Vanject.pos_from_slice vangers_srv.Vanject.body_from get_vanject_type
    vangers_srv.Base.slice_from
slot_parsed = refl

relay_example :
    (slot_after.id ≡ slot_id)
    × (slot_after.player_bind_id ≡ 1)
    × (slot_after.radius ≡ 15)
    × (vanject_bytes slot_after
        ≡ take 4 slot_bytes
          ++ (1 ∷ (sub_list slot_bytes 4 8 ++ drop (body_start slot_id) slot_bytes)))
relay_example = relay (object slot_id 1 []) slot_after slot_bytes slot_bytes-IsBytes slot_parsed
