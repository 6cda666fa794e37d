-- ===== src/SaveOverlay/Store/Checkpoint.antt =====
-- A checkpoint of a card (flushCard of saveoverlay.go) has the bytes that the console saw.
use wii_bridge.Common.{
  ℕ, ◌+◌, ◌-◌, ◌*◌, ◌/◌, ◌%◌, ◌≡◌, refl, ap, ◌∙◌, true, false, ◌&&◌, [], ◌∷◌, ltb, leb, ◌==◌, arith,
  Bytes, length, get_or, length-splice, get_or-splice, Bool-cases, ==_iff, inl, inr,
}
use wii_bridge.SaveOverlay.{Dirty}
use wii_bridge.SaveOverlay.Blocks.View.{view, AllWhole}
use wii_bridge.SaveOverlay.Store.{checkpoint}

pub length-checkpoint :
    (dirty : Dirty) (file : Bytes)
    → length file % 512 ≡ 0
    → AllWhole (length file) dirty
    → length (checkpoint dirty file) ≡ length file
unfolding checkpoint
length-checkpoint [] file aligned w = refl
length-checkpoint ((j, b) ∷ dirty) file aligned ((size, inside), w) =
    let rest = length-checkpoint dirty file aligned w in
    length-splice (checkpoint dirty file) (j * 512) b (omega (arith, rest)) ∙ rest

pub checkpoint_lem :
    (dirty : Dirty) (file : Bytes) (p : ℕ)
    → length file % 512 ≡ 0
    → AllWhole (length file) dirty
    → get_or (checkpoint dirty file) p 0 ≡ view file dirty p
unfolding checkpoint
checkpoint_lem [] file p aligned w = refl
checkpoint_lem ((j, b) ∷ dirty) file p aligned ((size, inside), w) =
    let rest = checkpoint_lem dirty file p aligned w in
    let byte =
      get_or-splice (checkpoint dirty file) (j * 512) b p
        (omega (arith, size, length-checkpoint dirty file aligned w)) in
    elim (Bool-cases (j == p / 512)) [
      | inl here ↦
          let index : j ≡ p / 512 = (==_iff j (p / 512)).0 here in
          let test : (leb (j * 512) p && ltb p (j * 512 + length b)) ≡ true = ground arith in
          let place : p - j * 512 ≡ p % 512 = omega arith in
          byte ∙ rw (test, here, view) (ap (λ k. get_or b k 0) place)
      | inr other ↦
          let test : (leb (j * 512) p && ltb p (j * 512 + length b)) ≡ false = ground arith in
          byte ∙ rw (test, other, view) rest
    ]
