-- ===== src/Vanject/Fields.antt =====
-- What the decoders of an id read (vanject.rs).
use vangers_srv.Base.{ℕ, ◌&&◌, ◌+◌, ◌*◌, ◌%◌, ◌^◌, ◌<◌, ◌≡◌, ◌≢◌, not, arith, ltb, leb, ◌==◌}
use vangers_srv.Vanject.Ids.{
  sar, get_station, get_world, is_non_static, is_players_vanject, is_non_global_vanject,
  DecodedVanjectId, decode, type_name, sensor, tnt, terrain,
}

-- The id that packs a station, a world, a type and a counter, static or not.
abbrev pub pack : ℕ → ℕ → ℕ → ℕ → ℕ → ℕ
pack static station world type counter =
    static * 2 ^ 31 + station * 2 ^ 26 + world * 2 ^ 22 + type * 2 ^ 16 + counter

module _ (static station world type counter : ℕ) (h0 : static < 2) (h1 : station < 32)
    (h2 : world < 16) (h3 : type < 64) (h4 : counter < 2 ^ 16) where
  abbrev packed : ℕ
  packed = pack static station world type counter

  get_station-pack : get_station packed ≡ station
  unfolding get_station
  get_station-pack = ground arith

  get_world-pack : get_world packed ≡ world
  unfolding get_world
  get_world-pack = ground arith

  type-pack : sar packed 16 % 64 ≡ type
  type-pack = ground arith

  is_non_global-pack : not (is_non_global_vanject packed) ≡ (type == 0)
  unfolding is_non_global_vanject
  is_non_global-pack = ground arith

  counter-pack : packed % 2 ^ 16 ≡ counter
  counter-pack = omega arith

  is_players-pack : is_players_vanject packed ≡ ltb type 8
  unfolding is_players_vanject
  is_players-pack = ground arith

  is_static-pack : not (is_non_static packed) ≡ (static == 1)
  unfolding is_non_static
  is_static-pack = ground arith

-- Decoding an id that was packed from fields in range gives the fields back, and the flags are the
-- ones of the type: global for type 0, private for types 8 to 10, a player's for types 0 to 7, and
-- static by the highest bit, which no other field sees.
pub decode-pack :
    (static station world type counter : ℕ)
    → static < 2
    → station < 32
    → world < 16
    → type < 64
    → counter < 2 ^ 16
    → decode (pack static station world type counter) ≡ record {
      id = pack static station world type counter;
      station = station;
      world = world;
      type_id = type;
      counter = counter;
      global = type == 0;
      private = leb 8 type && leb type 10;
      players_object = ltb type 8;
      static_object = static == 1;
    }
unfolding decode
decode-pack static station world type counter h0 h1 h2 h3 h4 = simp (
  get_station-pack static station world type counter h0 h1 h2 h3 h4,
  get_world-pack static station world type counter h0 h1 h2 h3 h4,
  type-pack static station world type counter h0 h1 h2 h3 h4,
  is_non_global-pack static station world type counter h0 h1 h2 h3 h4,
  counter-pack static station world type counter h0 h1 h2 h3 h4,
  is_players-pack static station world type counter h0 h1 h2 h3 h4,
  is_static-pack static station world type counter h0 h1 h2 h3 h4,
)

-- The masked type never has the highest bit, so the names of the three static types, whose constants
-- have it, are never given, and such an object is called unknown.
pub type_name_static :
    (d : DecodedVanjectId) → (type_name d ≢ sensor) × (type_name d ≢ tnt) × (type_name d ≢ terrain)
unfolding type_name
type_name_static d = (λ h. ground arith, λ h. ground arith, λ h. ground arith)
