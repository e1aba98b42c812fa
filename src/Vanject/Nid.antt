-- ===== src/Vanject/Nid.antt =====
-- The constants of the module `NID`, vangers-srv/src/vanject.rs.
use vangers_srv.Base.{ℕ, ◌+◌, ◌*◌, ◌^◌}

abbrev pub global : ℕ
global = 0

abbrev pub device : ℕ
device = 1 * 2 ^ 16

abbrev pub slot : ℕ
slot = 2 * 2 ^ 16

abbrev pub shell : ℕ
shell = 3 * 2 ^ 16

abbrev pub vanger : ℕ
vanger = 9 * 2 ^ 16

abbrev pub stuff : ℕ
stuff = 11 * 2 ^ 16

abbrev pub sensor : ℕ
sensor = 12 * 2 ^ 16 + 2 ^ 31

abbrev pub tnt : ℕ
tnt = 14 * 2 ^ 16 + 2 ^ 31

abbrev pub terrain : ℕ
terrain = 15 * 2 ^ 16 + 2 ^ 31
