-- ===== src/SaveOverlay/Cards/Contents.antt =====
-- What the operations of the store of cards (saveoverlay.go) do to the bytes of all its cards.
use text.Mathlib.Text.{◌==◌ as str_eq}
use text.Mathlib.TextEquality.{eq_iff}
use wii_bridge.Common.{
  along_some, ℕ, ◌≡◌, sym, ◌∙◌, subst, String, false, none, some, List, [], ◌∷◌, if◌then◌else◌,
  arith, Bytes, length, Bool-cases, inl, inr,
}
use wii_bridge.SaveOverlay.{Io}
use wii_bridge.SaveOverlay.Blocks.View.{IsSound}
use wii_bridge.SaveOverlay.Journal.{Limits}
use wii_bridge.SaveOverlay.Store.{Card}
use wii_bridge.SaveOverlay.Store.Readable.{sees}
use wii_bridge.SaveOverlay.Store.Durable.{IsServed}
use wii_bridge.SaveOverlay.Cards.{SaveStore, find_card, update_card}

-- The bytes of a card, and none where there is no card.
abbrev pub contents : SaveStore → String → ℕ → ℕ
contents s id p = elim (find_card id s.objects) [ none ↦ 0 | some c ↦ sees c p ]

abbrev pub size_of : SaveStore → String → ℕ
size_of s id = elim (find_card id s.objects) [ none ↦ 0 | some c ↦ c.card_size ]

find-update_card :
    (id : String) (c' : Card) (objects : List (String × Card)) (other : String) (c : Card)
    → find_card id objects ≡ some c
    → find_card other (update_card id c' objects)
      ≡ (if str_eq id other then some c' else find_card other objects)
find-update_card id c' [] other c h = absurd (cc h)
find-update_card id c' ((key, c0) ∷ rest) other c h = elim (Bool-cases (str_eq key id)) [
  | inl here ↦
      let same : key ≡ id = (eq_iff key id).0 here in
      rw (here, same) (elim (Bool-cases (str_eq id other)) [ inl e ↦ rw e | inr e ↦ rw e ])
  | inr there ↦
      let later = find-update_card id c' rest other c (ground arith) in
      elim (Bool-cases (str_eq key other)) [
        | inr e ↦ rw (there, e) later
        | inl e ↦
            let other_key : key ≡ other = (eq_iff key other).0 e in
            let apart : str_eq id other ≡ false = elim (Bool-cases (str_eq id other)) [
              | inr differ ↦ differ
              | inl agree ↦
                  absurd
                    (cc (there, (eq_iff key id).1 (other_key ∙ sym ((eq_iff id other).0 agree))))
            ] in
            rw (there, e, apart)
      ]
]

pub contents-update_card :
    (s : SaveStore) (id : String) (c c' : Card) (other : String) (p : ℕ)
    → find_card id s.objects ≡ some c
    → contents (record s { objects = update_card id c' s.objects }) other p
      ≡ (if str_eq id other then sees c' p else contents s other p)
contents-update_card s id c c' other p found =
    let there = find-update_card id c' s.objects other c found in
    elim (Bool-cases (str_eq id other)) [
      | inl e ↦ rw (there, e, contents)
      | inr e ↦ rw (there, e, contents)
    ]

pub size-update_card :
    (s : SaveStore) (id : String) (c c' : Card) (other : String)
    → find_card id s.objects ≡ some c
    → c'.card_size ≡ c.card_size
    → size_of (record s { objects = update_card id c' s.objects }) other ≡ size_of s other
size-update_card s id c c' other found size =
    let there = find-update_card id c' s.objects other c found in
    elim (Bool-cases (str_eq id other)) [
      | inr e ↦ rw (there, e, size_of)
      | inl e ↦
          let one : id ≡ other = (eq_iff id other).0 e in
          let found' : find_card other s.objects ≡ some c =
            subst (λ t. find_card t s.objects ≡ some c) one found in
          rw (there, e, found', size_of) size
    ]

pub contents-find_card :
    (s : SaveStore) (id : String) (c : Card) (p : ℕ)
    → find_card id s.objects ≡ some c
    → contents s id p ≡ sees c p
contents-find_card s id c p found = rw (found, contents)

-- Every card keeps its invariant, or is blocked and can be read.
abbrev pub AllServed : (Bytes → Bytes) → Limits → List (String × Card) → Type 0
AllServed sha256 limits [] = Unit
AllServed sha256 limits ((id, c) ∷ rest) = IsServed sha256 limits c × AllServed sha256 limits rest

module _ (sha256 : Bytes → Bytes) (limits : Limits) where
  pub find_card-IsServed :
      (id : String) (objects : List (String × Card)) (c : Card)
      → AllServed sha256 limits objects
      → find_card id objects ≡ some c
      → IsServed sha256 limits c
  find_card-IsServed id [] c ok h = absurd (cc h)
  find_card-IsServed id ((key, c0) ∷ rest) c (ok, oks) h = elim (Bool-cases (str_eq key id)) [
    | inl here ↦ along_some (IsServed sha256 limits) c0 c (ground arith) ok
    | inr there ↦ find_card-IsServed id rest c oks (ground arith)
  ]

  pub update_card-AllServed :
      (id : String) (c' : Card) (objects : List (String × Card))
      → AllServed sha256 limits objects
      → IsServed sha256 limits c'
      → AllServed sha256 limits (update_card id c' objects)
  update_card-AllServed id c' [] ok h = tt
  update_card-AllServed id c' ((key, c0) ∷ rest) (ok, oks) h = elim (Bool-cases (str_eq key id)) [
    | inl here ↦ rw here (h, oks)
    | inr there ↦ rw there (ok, update_card-AllServed id c' rest oks h)
  ]

  pub IsServed-IsSound :
      (io : Io) (c : Card)
      → IsServed sha256 limits c
      → ((at n : ℕ) → io.read_fails at n ≡ none)
      → IsSound io c.file c.dirty × (length c.file ≡ c.card_size)
  IsServed-IsSound io c (inl (free, (ws, d))) reads = (
    record { reads = reads; whole_file = d.is_aligned; whole_blocks = d.whole_blocks },
    d.size_is,
  )
  IsServed-IsSound io c (inr (blocked, d)) reads = (
    record { reads = reads; whole_file = d.is_aligned; whole_blocks = d.whole_blocks },
    d.size_is,
  )
