-- ===== src/WebServer/Endings.antt =====
-- CheckFileEnding of Lab1/Server/tools.go on paths that begin with a slash.
use Prim.Native.Char.{code}
use Prim.Native.String.append
use Prim.Native.String.compare
use tda596_distributed_syste.Prelude.{
  ◌≡◌, refl, ap, ◌∙◌, ◌==◌, inl, inr, ◌⊎◌, if◌then◌else◌, Bool-cases, true, false, none, some, List,
  [], ◌∷◌, String, ℕ, arith,
}
use tda596_distributed_syste.Prelude.Text.{◌&◌, split, cons_head}
use tda596_distributed_syste.WebServer.{check_file_ending, last_part, is_known, copy_name}

slash : (p : String) → "/" & p ≡ String.◌∷◌ "/" p
slash p = append.cons "/" "" p ∙ ap (String.◌∷◌ "/") (append.nil p)

slash_unknown : (p : String) → is_known (String.◌∷◌ "/" p) ≡ false
slash_unknown p = ground (
  arith,
  compare.cons-cons "/" "h" p "tml",
  compare.cons-cons "/" "t" p "xt",
  compare.cons-cons "/" "g" p "if",
  compare.cons-cons "/" "j" p "peg",
  compare.cons-cons "/" "j" p "pg",
  compare.cons-cons "/" "c" p "ss",
)

AtLeastTwo : List String → Type 0
AtLeastTwo [] = ⊥
AtLeastTwo (x ∷ []) = ⊥
AtLeastTwo (x ∷ y ∷ ys) = Unit {0}

-- A text without the separator is its only part.
only_part : (sep : ℕ) (s : String) → AtLeastTwo (split sep s) ⊎ (split sep s ≡ s ∷ [])
unfolding split AtLeastTwo
only_part sep String.[] = inr refl
only_part sep (String.◌∷◌ c s) = step (Bool-cases (code c == sep)) (split sep s) (only_part sep s)
  where
    step :
        ((code c == sep) ≡ true) ⊎ ((code c == sep) ≡ false)
        → (rest : List String) → AtLeastTwo rest ⊎ (rest ≡ s ∷ [])
        → AtLeastTwo (if code c == sep then "" ∷ rest else cons_head c rest)
          ⊎ ((if code c == sep then "" ∷ rest else cons_head c rest) ≡ String.◌∷◌ c s ∷ [])
    step (inl e) [] (inl x) = absurd x
    step (inl e) [] (inr x) = ground arith
    step (inl e) (x ∷ xs) h = inl (rw e tt)
    step (inr e) (x ∷ y ∷ xs) (inl h) = inl (rw e tt)
    step (inr e) rest (inr h) = inr (rw (e, h) refl)
    step (inr e) [] (inl x) = absurd x
    step (inr e) (x ∷ []) (inl h) = absurd h

-- What comes before a text that has the separator changes no part but the first.
prefixed :
    (sep : ℕ) (pre s : String)
    → AtLeastTwo (split sep s)
    → AtLeastTwo (split sep (pre & s))
      × (last_part "" (split sep (pre & s)) ≡ last_part "" (split sep s))
unfolding split AtLeastTwo last_part
prefixed sep String.[] s h = rw (append.nil s) (h, refl)
prefixed sep (String.◌∷◌ c pre) s h =
    rw (append.cons c pre s)
      (step (Bool-cases (code c == sep)) (split sep (pre & s)) (prefixed sep pre s h))
  where
    step :
        ((code c == sep) ≡ true) ⊎ ((code c == sep) ≡ false)
        → (rest : List String) → AtLeastTwo rest × (last_part "" rest ≡ last_part "" (split sep s))
        → AtLeastTwo (if code c == sep then "" ∷ rest else cons_head c rest)
          × (last_part "" (if code c == sep then "" ∷ rest else cons_head c rest)
              ≡ last_part "" (split sep s))
    step e [] (h, k) = absurd h
    step e (x ∷ []) (h, k) = absurd h
    step (inl e) (x ∷ y ∷ xs) (h, k) = rw e (tt, k)
    step (inr e) (x ∷ y ∷ xs) (h, k) = rw e (tt, k)

-- A file name that begins with a slash and has a known ending has it after a dot, whatever comes
-- before the slash.
pub known_ending_lem :
    (pre p : String)
    → (check_file_ending ("/" & p)).1 ≡ true
    → (check_file_ending (pre & "/" & p) ≡ check_file_ending ("/" & p))
      × (copied : String) × (copy_name (pre & "/" & p) ≡ some copied)
unfolding check_file_ending copy_name AtLeastTwo last_part
known_ending_lem pre p h = elim (only_part b'.' ("/" & p)) [
  | inl two ↦
      let (two', same) = prefixed b'.' pre ("/" & p) two in
      let (name, e) = copied (split b'.' (pre & "/" & p)) two' in
      (ap (λ e. (e, is_known e)) same, name, e)
  | inr one ↦
      let unknown : is_known (last_part "" (split b'.' ("/" & p))) ≡ false =
        rw one (rw (slash p) (slash_unknown p)) in
      absurd (ground (arith, h, unknown))
]
  where
    copied :
        (parts : List String)
        → AtLeastTwo parts
        → (name : String) × ((elim parts [
          | stem ∷ ending ∷ _ ↦ some (stem & "(1)." & ending)
          | _ ↦ none
        ])
            ≡ some name)
    copied [] h = absurd h
    copied (x ∷ []) h = absurd h
    copied (x ∷ y ∷ ys) h = (x & "(1)." & y, refl)
