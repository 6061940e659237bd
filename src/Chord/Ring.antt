-- ===== src/Chord/Ring.antt =====
-- Lab2/Node/tools.go and node.go: the identifier circle. A `*big.Int` is a natural number; the code
-- makes no negative ones.
pub mod Arcs
use tda596_distributed_syste.Prelude.{
  ℕ, ◌+◌, ◌-◌, ◌%◌, ◌^◌, ltb, ◌==◌, if◌then◌else◌, Bool, ◌&&◌, ◌||◌, String,
}

abbrev pub finger_table_size : ℕ
finger_table_size = 6

abbrev pub m : ℕ
m = 6

abbrev pub hash_mod : ℕ
hash_mod = 2 ^ m

-- `id.Mod(strHash(name), hashMod)`; `str_hash` is the number that SHA-1 makes of a name.
abbrev pub hash_id : (String → ℕ) → String → ℕ
hash_id str_hash name = str_hash name % hash_mod

unfoldable pub between : ℕ → ℕ → ℕ → Bool → Bool
between start elt end inclusive =
    if ltb start end
    then (ltb start elt && ltb elt end) || (inclusive && elt == end)
    else ltb start elt || ltb elt end || (inclusive && elt == end)

-- (n + 2^(k-1)) mod 2^m
unfoldable pub finger_entry : ℕ → ℕ → ℕ
finger_entry identifier k = (identifier + 2 ^ (k - 1)) % hash_mod
