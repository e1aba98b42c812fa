-- ===== src/Game/Config/Total.antt =====
-- Reading a configuration never panics (game/{config,prm}.rs).
use vangers_srv.Base.{
  ℕ, ◌-◌, ◌≤◌, Option, none, some, List, arith, leb, if◌then◌else◌, length, drop, slice_from, ok,
  ◌>>=◌, IsOk, IsOk-bind, Result, word, word_at_in_range, slice_from_in_range, length-drop,
  Bool-cases, inl, inr, le→ltb,
}
use vangers_srv.Game.Config.{
  GameType, GameMode, van_war, mechosoma, passembloss, mir_rage, huntage, mustodont, unconfigured,
  config_from_slice, mode_from_slice, van_war_from_slice, mechosoma_from_slice,
  passembloss_from_slice, mustodont_from_slice, game_type_from_i32,
}

module _ (E : Type 0) where
  van_war_total : (s : List ℕ) → 20 ≤ length s → IsOk (van_war_from_slice {E = E} s)
  unfolding van_war_from_slice
  van_war_total s h = rw (le→ltb (length s) 20 h) (
      simp
        (
          word_at_in_range {E = E} s 0 4 (omega arith),
          word_at_in_range {E = E} s 4 4 (omega arith),
          word_at_in_range {E = E} s 8 4 (omega arith),
          word_at_in_range {E = E} s 12 4 (omega arith),
        )
        tt)

  mechosoma_total : (s : List ℕ) → 20 ≤ length s → IsOk (mechosoma_from_slice {E = E} s)
  unfolding mechosoma_from_slice
  mechosoma_total s h = rw (le→ltb (length s) 20 h) (
      simp
        (
          word_at_in_range {E = E} s 0 4 (omega arith),
          word_at_in_range {E = E} s 4 4 (omega arith),
          word_at_in_range {E = E} s 8 4 (omega arith),
          word_at_in_range {E = E} s 12 4 (omega arith),
          word_at_in_range {E = E} s 16 4 (omega arith),
        )
        tt)

  passembloss_total : (s : List ℕ) → 8 ≤ length s → IsOk (passembloss_from_slice {E = E} s)
  unfolding passembloss_from_slice
  passembloss_total s h = rw (le→ltb (length s) 8 h) (
      simp
        (word_at_in_range {E = E} s 0 4 (omega arith), word_at_in_range {E = E} s 4 4 (omega arith))
        tt)

  mustodont_total : (s : List ℕ) → 8 ≤ length s → IsOk (mustodont_from_slice {E = E} s)
  unfolding mustodont_from_slice
  mustodont_total s h = rw (le→ltb (length s) 8 h) (
      simp
        (word_at_in_range {E = E} s 0 4 (omega arith), word_at_in_range {E = E} s 4 4 (omega arith))
        tt)

  -- A mode is read only where its bytes are there.
  guarded_total :
      {A : Type 0} (size : ℕ) (s : List ℕ) (read : List ℕ → Result E A) (mode : A → GameMode)
      → 24 ≤ length s
      → ((rest : List ℕ) → size ≤ length rest → IsOk (read rest))
      → IsOk (
          if leb size (length s - 24)
          then (slice_from s 24 >>= λ rest. read rest >>= λ m. ok (some (mode m)))
          else ok none)
  guarded_total size s read mode h total = elim (Bool-cases (leb size (length s - 24))) [
    | inl e ↦
        let fits : size ≤ length s - 24 = ground arith in
        rw (e, slice_from_in_range {E = E} s 24 h)
          (IsOk-bind (read (drop 24 s)) _ (total _ (omega (arith, length-drop 24 s h))) (λ m. tt))
    | inr e ↦ rw e tt
  ]

  mode_total :
      (t : Option GameType) (s : List ℕ) → 24 ≤ length s → IsOk (mode_from_slice {E = E} t s)
  unfolding mode_from_slice
  mode_total none s h = tt
  mode_total (some unconfigured) s h = tt
  mode_total (some van_war) s h = guarded_total 20 s van_war_from_slice van_war h van_war_total
  mode_total (some mechosoma) s h =
      guarded_total 20 s mechosoma_from_slice mechosoma h mechosoma_total
  mode_total (some passembloss) s h =
      guarded_total 8 s passembloss_from_slice passembloss h passembloss_total
  mode_total (some mir_rage) s h = tt
  mode_total (some huntage) s h = tt
  mode_total (some mustodont) s h =
      guarded_total 8 s mustodont_from_slice mustodont h mustodont_total

  -- Whatever the bytes, reading a configuration returns: every slice that it takes is in range.
  pub config_from_slice_total : (s : List ℕ) → IsOk (config_from_slice {E = E} s)
  unfolding config_from_slice
  config_from_slice_total s = elim (Bool-cases (leb 24 (length s))) [
    | inl e ↦
        let long : 24 ≤ length s = ground arith in
        rw e (
          simp
            (
              word_at_in_range {E = E} s 0 4 (omega arith),
              word_at_in_range {E = E} s 4 4 (omega arith),
              word_at_in_range {E = E} s 8 4 (omega arith),
              word_at_in_range {E = E} s 12 4 (omega arith),
              word_at_in_range {E = E} s 16 4 (omega arith),
              word_at_in_range {E = E} s 20 4 (omega arith),
            )
            (IsOk-bind _ _ (mode_total (game_type_from_i32 (word s 4 4)) s long) (λ mode. tt)))
    | inr e ↦ rw e tt
  ]
