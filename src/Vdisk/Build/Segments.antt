-- ===== src/Vdisk/Build/Segments.antt =====
-- The segments into which Build of vdisk.go splits a game.
use wii_bridge.Common.{
  ℕ, zero, suc, ◌+◌, ◌-◌, ◌≤◌, ◌<◌, ◌≡◌, refl, List, [], ◌∷◌, arith, ltb, if◌then◌else◌, Bool-cases,
  inl, inr,
}
use wii_bridge.Vdisk.{max_segment, Source}
use wii_bridge.Vdisk.Build.{done, VirtualFile, split_rounds, split_game}

-- Segments one behind another from `off` to `size`, each of at least a byte and at most 4 GiB less
-- a cluster of 32 KiB, and all but the last of exactly that length.
abbrev pub Segments : List Source → ℕ → ℕ → List VirtualFile → Type 0
Segments sources off size [] = off ≡ size
Segments sources off size (f ∷ files) =
    (f.sources ≡ sources)
    × (f.off ≡ off)
    × (0 < f.len)
    × (f.len ≤ max_segment)
    × (f.len < max_segment → files ≡ [])
    × Segments sources (off + f.len) size files

Segments-bound :
    (sources : List Source) (off size : ℕ) (files : List VirtualFile)
    → Segments sources off size files
    → off ≤ size
Segments-bound sources off size [] s = omega (arith, s)
Segments-bound sources off size (f ∷ files) (same, place, some_bytes, at_most, last, rest) =
    omega (arith, Segments-bound sources (off + f.len) size files rest)

nothing_left :
    (sources : List Source) (off size : ℕ) (files : List VirtualFile)
    → size ≤ off
    → Segments sources off size files
    → files ≡ []
nothing_left sources off size [] h s = refl
nothing_left sources off size (f ∷ files) h (same, place, some_bytes, at_most, last, rest) =
    absurd (omega (arith, Segments-bound sources (off + f.len) size files rest))

split_rounds_lem :
    (sources : List Source) (size rounds off : ℕ)
    → off ≤ size
    → size - off < rounds
    → (files : List VirtualFile) × (split_rounds rounds sources size off ≡ done files)
      × Segments sources off size files
unfolding split_rounds
split_rounds_lem sources size zero off b h = elim h [ ]
split_rounds_lem sources size (suc rounds) off b h = elim (Bool-cases (ltb off size)) [
  | inr at_end ↦ ([], rw at_end, ground arith)
  | inl some_left ↦
      let n = if ltb max_segment (size - off) then max_segment else size - off in
      let some_bytes : 0 < n = ground arith in
      let at_most : n ≤ size - off = ground arith in
      let (files, found, segments) =
        split_rounds_lem sources size rounds (off + n) (omega arith) (omega arith) in
      (
        record { sources = sources; off = off; len = n } ∷ files,
        rw (some_left, found),
        (
          refl,
          refl,
          some_bytes,
          ground arith,
          λ short. nothing_left sources (off + n) size files (ground arith) segments,
          segments,
        ),
      )
]

-- Splitting a game ends, and its segments are, one behind another, the whole game, each of at least
-- a byte and at most 4 GiB less 32 KiB, and all but the last of exactly that length.
pub split_game_lem :
    (sources : List Source) (size : ℕ)
    → (files : List VirtualFile) × (split_game sources size ≡ done files)
      × Segments sources 0 size files
unfolding split_game
split_game_lem sources size = split_rounds_lem sources size (size + 1) 0 (omega arith) (omega arith)
