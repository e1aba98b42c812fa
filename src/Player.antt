-- ===== src/Player.antt =====
-- Players, vangers-srv/src/player/{player,bind,auth}.rs and game/world.rs. A world's id and size are
-- never written after it was made, and its own table of objects is never used, so the shared pointer
-- `Rc<RefCell<World>>` of a player is the world's value.
pub mod Body
use vangers_srv.Base.{
  ℕ, ◌+◌, ◌-◌, ◌^◌, Bool, true, false, ◌&&◌, Option, none, some, List, [], ◌∷◌, ◌++◌, ltb, leb,
  ◌==◌, if◌then◌else◌, length, take, drop, get_elem?, byte, Result, ok, err, panic, ◌>>=◌,
}
use vangers_srv.Vanject.{Pos}
use Body.{Body as PlayerBody, body_from_slice}

-- `World`
pub record World : Type 0 where
  pub id : ℕ
  pub y_size : ℕ

-- `Status`
pub data Status : Type 0 where
  initial gaming finished : Status

-- `status as u8`
abbrev pub status_code : Status → ℕ
status_code initial = 0
status_code gaming = 1
status_code finished = 2

-- `Auth`. The hash of a password is never read: the model keeps whether there is one.
pub record Auth : Type 0 where
  pub name : List ℕ
  pub pwd : Bool

-- `Player`. A bind is the number that `Bind` holds, an instant is a number of seconds.
pub record Player : Type 0 where
  pub client_id : ℕ
  pub bind : Option ℕ
  pub auth : Option Auth
  pub body : Option PlayerBody
  pub world : Option World
  pub pos : Pos
  pub screen_y_half_size : ℕ
  pub status : Status
  pub disconnected_until : Option ℕ

-- `Player::new`
abbrev pub new_player : ℕ → Player
new_player client_id = record {
  client_id = client_id;
  bind = none;
  auth = none;
  body = none;
  world = none;
  pos = record { x = 0; y = 0 };
  screen_y_half_size = 0;
  status = initial;
  disconnected_until = none;
}

-- `Bind::new`
unfoldable pub bind_new : {E : Type 0} → ℕ → Result E ℕ
bind_new id = if leb 1 id && leb id 31 then ok id else panic

-- `Bind::mask`: `1 << (id - 1)`
unfoldable pub bind_mask : ℕ → ℕ
bind_mask id = 2 ^ (id - 1)

-- `Player::set_bind`
unfoldable pub set_bind : {E : Type 0} → Player → ℕ → Result E Player
set_bind p id =
    if id == 0
    then ok (record p { bind = none; auth = none })
    else (do b ← bind_new id; ok (record p { bind = some b }))

-- The last element of a list.
abbrev pub last : List ℕ → Option ℕ
last [] = none
last (x ∷ []) = some x
last (x ∷ y ∷ ys) = last (y ∷ ys)

-- `Auth::new`; `generated` is the name that is made up with a random number.
unfoldable pub auth_new : List ℕ → List ℕ → List ℕ → Auth
auth_new generated name pwd = record {
  name = elim (last name) [ none ↦ generated | some b ↦ if b == 0 then name else name ++ (0 ∷ []) ];
  pwd = elim pwd [ [] ↦ false | b ∷ bs ↦ true ];
}

-- `Player::set_auth`, which panics on a name that is not closed by a null byte.
unfoldable pub set_auth : {E : Type 0} → List ℕ → Player → List ℕ → List ℕ → Result E Player
set_auth generated p name pwd =
    if ltb 1 (length name) && byte name (length name - 1) == 0
    then ok (record p { auth = some (auth_new generated name pwd) })
    else panic

-- `Player::set_body`: the body is written also when the slice is no body. The flag is `Ok`.
unfoldable pub set_body : {E : Type 0} → Player → List ℕ → Result E (Player × Bool)
set_body p s = do
  body ← body_from_slice s
  elim body [
    | none ↦ ok (record p { body = none }, false)
    | some b ↦ ok (record p { body = some b }, true)
  ]
