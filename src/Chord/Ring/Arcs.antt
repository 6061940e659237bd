-- ===== src/Chord/Ring/Arcs.antt =====
-- `between` measured along the circle.
use tda596_distributed_syste.Prelude.{
  ℕ, ◌+◌, ◌-◌, ◌<◌, ◌≤◌, leb, ◌≡◌, ◌≢◌, ◌↔◌, if◌then◌else◌, true, false, arith,
}
use tda596_distributed_syste.Chord.Ring.{hash_mod, between}

-- How far `x` lies clockwise from `start`: 1 to `hash_mod`, where a whole turn leads to `start`.
abbrev pub arc : ℕ → ℕ → ℕ
arc start x = if leb x start then x + hash_mod - start else x - start

-- The same with 0 for `start` itself.
abbrev pub distance : ℕ → ℕ → ℕ
distance start x = if leb start x then x - start else x + hash_mod - start

-- On identifiers, `between` without its end says that `elt` comes before `end` on the way clockwise
-- from `start`, and with its end that it comes no later than `end`; a whole turn if the two are one.
pub between_iff :
    (start elt end : ℕ)
    → start < hash_mod
    → elt < hash_mod
    → end < hash_mod
    → ((between start elt end false ≡ true) ↔ (arc start elt < arc start end))
      × ((between start elt end true ≡ true) ↔ (arc start elt ≤ arc start end))
unfolding between
between_iff start elt end hs he hn = (ground arith, ground arith)

-- Moving on to `mid`, which comes before `x`, makes the way to `x` shorter.
pub arc-lt_of_arc-lt :
    (start mid x : ℕ)
    → start < hash_mod
    → mid < hash_mod
    → x < hash_mod
    → arc start mid < arc start x
    → arc mid x < arc start x
arc-lt_of_arc-lt start mid x hs hm hx h = ground arith

-- A node that comes between `p` and `s`, where no other does, is alone between them.
module _ (p x s r : ℕ) (hp : p < hash_mod) (hx : x < hash_mod) (hs : s < hash_mod)
    (hr : r < hash_mod) (inside : between p x s false ≡ true)
    (outside : between p r s false ≡ false) where
  pub nothing_before : between p r x false ≡ false
  unfolding between
  nothing_before = ground arith

  pub nothing_after : between x r s false ≡ false
  unfolding between
  nothing_after = ground arith

  -- It does not come between any other neighbours.
  pub nothing_elsewhere :
      (t : ℕ) → t < hash_mod → r ≢ p → between r p t false ≡ false → between r x t false ≡ false
  unfolding between
  nothing_elsewhere t ht apart next = ground arith

pub between-end : (p x : ℕ) → between p x x false ≡ false
unfolding between
between-end p x = ground arith

pub between-start : (x s : ℕ) → between x x s false ≡ false
unfolding between
between-start x s = ground arith

-- The first node at or after `x` is the end of the gap in which `x` lies.
pub end_of_gap :
    (p x s r : ℕ)
    → p < hash_mod
    → x < hash_mod
    → s < hash_mod
    → r < hash_mod
    → between p x s false ≡ true
    → between p r s false ≡ false
    → distance x r ≤ distance x s
    → r ≡ s
unfolding between
end_of_gap p x s r hp hx hs hr inside outside near = ground arith
