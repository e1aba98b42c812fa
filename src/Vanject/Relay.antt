-- ===== src/Vanject/Relay.antt =====
-- What the server sends on after an update: the slice it got, with the owner behind the id (vanject.rs).
use vangers_srv.Base.{
  ℕ, ◌≤◌, ◌≡◌, refl, sym, ap, ap₂, ◌∙◌, List, [], ◌∷◌, ◌++◌, append_assoc, arith, ◌==◌,
  if◌then◌else◌, length, drop, take, sub_list, to_le, from_le, ok, IsByte, IsBytes, All-take,
  All-drop, take-add, drop-drop, length-sub_list, to_le-from_le, to_le-word, word,
}
use vangers_srv.Vanject.Nid
use vangers_srv.Vanject.Ids.{get_vanject_type}
use vangers_srv.Vanject.{Vanject, vanject_bytes, update_from_slice}
use vangers_srv.Vanject.Slices.{position, updated, update_from_slice_cases}

four_bytes :
    (zs : List ℕ)
    → IsBytes zs
    → length zs ≡ 4
    → to_le 2 (from_le (sub_list zs 0 2)) ++ to_le 2 (from_le (sub_list zs 2 2)) ≡ zs
four_bytes (a ∷ b ∷ c ∷ d ∷ []) h e =
    ap₂ ◌++◌ (to_le-from_le (a ∷ b ∷ []) (h.0, (h.1.0, tt)))
      (to_le-from_le (c ∷ d ∷ []) (h.1.1.0, (h.1.1.1.0, tt)))
four_bytes _ h e = absurd (omega arith)

-- The header of a slice, read and written again.
header_bytes :
    (s : List ℕ)
    → IsBytes s
    → 12 ≤ length s
    → to_le 4 (word s 4 4) ++ (to_le 2 (position s 8).x ++ to_le 2 (position s 8).y)
      ≡ sub_list s 4 8
header_bytes s h long =
    ap₂ ◌++◌ (to_le-word s 4 4 h (omega arith)) (
      four_bytes (sub_list s 8 4) (All-take IsByte 4 (drop 8 s) (All-drop IsByte 8 s h))
        (length-sub_list s 8 4 long))
    ∙ sym (take-add 4 4 (drop 4 s) ∙ ap (λ t. take 4 (drop 4 s) ++ take 4 t) (drop-drop 4 4 s))

vanject_bytes-updated :
    (v : Vanject) (s : List ℕ) (body : ℕ)
    → IsBytes s
    → 12 ≤ length s
    → word s 0 4 ≡ v.id
    → vanject_bytes (updated v s body)
      ≡ take 4 s ++ (v.player_bind_id ∷ (sub_list s 4 8 ++ drop body s))
unfolding vanject_bytes
vanject_bytes-updated v s body h long e =
    ap₂ (λ a b. a ++ (v.player_bind_id ∷ b))
      (ap (to_le 4) (sym e) ∙ to_le-word s 0 4 h (omega arith))
      (regroup (to_le 4 (word s 4 4)) (to_le 2 (position s 8).x) (to_le 2 (position s 8).y)
          (drop body s)
        ∙ ap (λ t. t ++ drop body s) (header_bytes s h long))
  where
    regroup : (a b c d : List ℕ) → a ++ (b ++ (c ++ d)) ≡ (a ++ (b ++ c)) ++ d
    regroup a b c d = simp append_assoc

-- Where the body of an update begins.
abbrev pub body_start : ℕ → ℕ
body_start id = if get_vanject_type id == Nid.vanger then 14 else 12

pub update_from_slice_inv :
    (v v' : Vanject) (s : List ℕ)
    → update_from_slice v s ≡ ok v'
    → (12 ≤ length s) × (word s 0 4 ≡ v.id) × (v' ≡ updated v s (body_start v.id))
update_from_slice_inv v v' s e = ground (arith, update_from_slice_cases v s)

-- When a slice of bytes is accepted as an update of an object, the update keeps the id, the owner
-- and the radius of the object, and what the server then writes of it is the slice, byte for byte,
-- with the owner's id put in behind the object's id, and without the two bytes of screen size that
-- a VANGER's slice has before its body.
pub relay :
    (v v' : Vanject) (s : List ℕ)
    → IsBytes s
    → update_from_slice v s ≡ ok v'
    → (v'.id ≡ v.id)
      × (v'.player_bind_id ≡ v.player_bind_id)
      × (v'.radius ≡ v.radius)
      × (vanject_bytes v'
          ≡ take 4 s ++ (v.player_bind_id ∷ (sub_list s 4 8 ++ drop (body_start v.id) s)))
relay v v' s h e =
    let (long, same, eq) = update_from_slice_inv v v' s e in
    rw eq (refl, refl, refl, vanject_bytes-updated v s (body_start v.id) h long same)
