-- ===== src/Server/Callback/AttachToGame/Offsets.antt =====
-- The sixteen offsets of object ids that a new player is told, vangers-srv/src/server/callback/attach_to_game.rs.
use vangers_srv.Base.{
  ℕ, zero, suc, ◌+◌, ◌%◌, ◌^◌, ◌&&◌, List, [], ◌∷◌, ◌++◌, ltb, ◌==◌, if◌then◌else◌, byte, to_le,
  Map, Result, ok, panic,
}
use vangers_srv.Vanject.{Vanject}
use vangers_srv.Vanject.Ids.{get_station, sar}

abbrev pub no_offsets : List ℕ
no_offsets = 0 ∷ 0 ∷ 0 ∷ 0 ∷ 0 ∷ 0 ∷ 0 ∷ 0 ∷ 0 ∷ 0 ∷ 0 ∷ 0 ∷ 0 ∷ 0 ∷ 0 ∷ 0 ∷ []

-- A write at an index in range.
abbrev pub set : List ℕ → ℕ → ℕ → List ℕ
set [] i v = []
set (x ∷ xs) zero v = v ∷ xs
set (x ∷ xs) (suc i) v = x ∷ set xs i v

-- `((id >> 16) & 63) as usize`
abbrev pub type_index : ℕ → ℕ
type_index id = sar id 16 % 64

-- The loop over the objects; an index past the sixteen offsets panics. The array is written only for an
-- object of the player's station.
unfoldable pub raise_offsets : {E : Type 0} → ℕ → Map Vanject → List ℕ → Result E (List ℕ)
raise_offsets player_id [] offsets = ok offsets
raise_offsets player_id ((id, v) ∷ m) offsets =
    let index = type_index id in
    let rest = raise_offsets player_id m (
      if get_station v.id == player_id && ltb (byte offsets index) (id % 2 ^ 16)
      then set offsets index (id % 2 ^ 16)
      else offsets) in
    if get_station v.id == player_id && ltb 15 index then panic else rest

-- `if o != 0 { o + 1 } else { o }` on a `u16`, which wraps around.
abbrev pub next_offset : ℕ → ℕ
next_offset o = if o == 0 then o else (o + 1) % 2 ^ 16

unfoldable pub offset_bytes : List ℕ → List ℕ
offset_bytes [] = []
offset_bytes (o ∷ os) = to_le 2 (next_offset o) ++ offset_bytes os
