-- ===== src/Prelude/TextOrder.antt =====
-- Go's order on strings, by the code points: `a < b`.
use Prim.Native.Nat.{Ordering}
use Prim.Native.String.{String, compare}
use Prim.Native.String.compare
use text.Mathlib.Text.{◌==◌ as str_eq}
use mathlib.Core.Path.{◌≡◌}
use mathlib.Core.Bool.{Bool, true, false}
use native.Mathlib.Omega.{arith}

abbrev pub is_lt : Ordering → Bool
is_lt Ordering.lt = true
is_lt _ = false

abbrev pub text_lt : String → String → Bool
text_lt s t = is_lt (compare s t)

pub text_lt_trans : (s t u : String) → text_lt s t ≡ true → text_lt u t ≡ false → text_lt s u ≡ true
text_lt_trans String.[] String.[] u h k = cc
text_lt_trans String.[] (String.◌∷◌ d t) String.[] h k = ground (arith, compare.nil-cons d t)
text_lt_trans String.[] (String.◌∷◌ d t) (String.◌∷◌ e u) h k = ground (arith, compare.nil-cons e u)
text_lt_trans (String.◌∷◌ c s) String.[] u h k = ground (arith, compare.cons-nil c s)
text_lt_trans (String.◌∷◌ c s) (String.◌∷◌ d t) String.[] h k = ground (arith, compare.nil-cons d t)
text_lt_trans (String.◌∷◌ c s) (String.◌∷◌ d t) (String.◌∷◌ e u) h k = ground (
  arith,
  compare.cons-cons c d s t,
  compare.cons-cons e d u t,
  compare.cons-cons c e s u,
  text_lt_trans s t u,
)

-- Two different texts are in order one way or the other.
pub text_lt_of_ne : (s t : String) → text_lt t s ≡ false → str_eq s t ≡ false → text_lt s t ≡ true
text_lt_of_ne String.[] String.[] h k = cc
text_lt_of_ne String.[] (String.◌∷◌ d t) h k = ground (arith, compare.nil-cons d t)
text_lt_of_ne (String.◌∷◌ c s) String.[] h k = ground (arith, compare.nil-cons c s)
text_lt_of_ne (String.◌∷◌ c s) (String.◌∷◌ d t) h k =
    ground (arith, compare.cons-cons c d s t, compare.cons-cons d c t s, text_lt_of_ne s t)

pub ne_of_text_lt : (s t : String) → text_lt s t ≡ true → str_eq s t ≡ false
ne_of_text_lt s t h = ground arith

pub text_lt_asymm : (s t : String) → text_lt s t ≡ true → text_lt t s ≡ false
text_lt_asymm String.[] String.[] h = cc
text_lt_asymm String.[] (String.◌∷◌ d t) h = ground (arith, compare.cons-nil d t)
text_lt_asymm (String.◌∷◌ c s) String.[] h = ground (arith, compare.cons-nil c s)
text_lt_asymm (String.◌∷◌ c s) (String.◌∷◌ d t) h =
    ground (arith, compare.cons-cons c d s t, compare.cons-cons d c t s, text_lt_asymm s t)
