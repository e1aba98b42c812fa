-- ===== src/Server/Callback/TransferPacket.antt =====
-- The payload of ITEM_TRANSFER and its validation, vangers-srv/src/server/callback/item_transfer.rs.
use vangers_srv.Base.{
  ℕ, ◌+◌, not, ◌&&◌, ◌||◌, none, some, List, ltb, ◌==◌, if◌then◌else◌, length, byte_at, word_at,
  slice_from, Result, ok, err, map_err, guard, ◌>>=◌, ◌>>◌,
}
use vangers_srv.Vanject.{Vanject, create_from_slice}
use vangers_srv.Vanject.Nid
use vangers_srv.Vanject.Ids.{get_vanject_type, decode}
use vangers_srv.Server.Errors.{
  ItemTransferError, packet_too_small, invalid_kind, slice_to_vanject_parse, type_mismatch,
  linked_id_mismatch, new_item_body_too_small, invalid_delete_marker, item_id_pair_mismatch,
}
use vangers_srv.Server.Callback.Items.{item_linked_id}

abbrev pub pickup : ℕ
pickup = 1

abbrev pub drop_item : ℕ
drop_item = 2

abbrev pub header_size : ℕ
header_size = 10

pub record ItemTransfer : Type 0 where
  pub kind : ℕ
  pub old_id : ℕ
  pub delete_body : ℕ
  pub new_vanject : Vanject

-- `parse_item_transfer`
unfoldable pub parse_item_transfer : List ℕ → Result ItemTransferError ItemTransfer
parse_item_transfer s =
    if ltb (length s) (header_size + 14) then err (packet_too_small (length s)) else do
      kind ← byte_at s 0
      guard (kind == pickup || kind == drop_item) (invalid_kind kind)
      old_id ← word_at s 1 4
      delete_body ← byte_at s 9
      rest ← slice_from s header_size
      new_vanject ← map_err slice_to_vanject_parse (create_from_slice rest)
      ok (record {
        kind = kind;
        old_id = old_id;
        delete_body = delete_body;
        new_vanject = new_vanject;
      })

-- `validate_transfer_types`
unfoldable pub validate_transfer_types : ItemTransfer → Result ItemTransferError (Unit {0})
validate_transfer_types t =
    let old_type = get_vanject_type t.old_id in
    let new_type = get_vanject_type t.new_vanject.id in
    if t.kind == pickup && (old_type == Nid.stuff && new_type == Nid.device)
    then ok tt
    else if t.kind == drop_item && (old_type == Nid.device && new_type == Nid.stuff)
    then ok tt
    else err (type_mismatch t.kind old_type new_type)

-- `validate_transfer_id_pair`
unfoldable pub validate_transfer_id_pair : ItemTransfer → Result ItemTransferError (Unit {0})
unfolding decode
validate_transfer_id_pair t =
    let old_decoded = decode t.old_id in
    let new_decoded = decode t.new_vanject.id in
    if not (old_decoded.station == new_decoded.station)
      || (not (old_decoded.world == new_decoded.world)
          || not (old_decoded.counter == new_decoded.counter))
    then err (item_id_pair_mismatch t.old_id t.new_vanject.id)
    else ok tt

-- `validate_linked_item_id`
unfoldable pub validate_linked_item_id : ItemTransfer → Result ItemTransferError (Unit {0})
unfolding item_linked_id
validate_linked_item_id t = elim (item_linked_id t.new_vanject) [
  | none ↦ err new_item_body_too_small
  | some linked_id ↦
      if linked_id == t.old_id then ok tt else err (linked_id_mismatch t.old_id linked_id)
]

-- `validate_delete_marker`
unfoldable pub validate_delete_marker : ItemTransfer → Result ItemTransferError (Unit {0})
validate_delete_marker t =
    if t.delete_body == 1 then ok tt else err (invalid_delete_marker t.delete_body)

-- The four validations in their order.
unfoldable pub validate : ItemTransfer → Result ItemTransferError (Unit {0})
unfolding validate_transfer_types validate_transfer_id_pair validate_linked_item_id
    validate_delete_marker
validate t = do
  validate_transfer_types t
  validate_transfer_id_pair t
  validate_linked_item_id t
  validate_delete_marker t
