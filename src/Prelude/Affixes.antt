-- ===== src/Prelude/Affixes.antt =====
-- Go's strings.HasPrefix and strings.HasSuffix, and texts with a dash between two parts.
use Prim.Native.Char.{code}
use Prim.Native.String.append
use text.Mathlib.Text.{◌==◌ as str_eq}
use text.Mathlib.TextEquality.{eq_iff}
use tda596_distributed_syste.Prelude.Tests.{◌==◌}
use tda596_distributed_syste.Prelude.Text.{◌&◌}
use Prim.Native.Nat.{ℕ}
use Prim.Native.String.{String}
use mathlib.Core.Path.{◌≡◌, refl, sym, ap, ◌∙◌}
use mathlib.Core.Bool.{Bool, true, false, ◌||◌, ◌&&◌}
use native.Mathlib.Omega.{arith}

unfoldable pub has_suffix : String → String → Bool
has_suffix String.[] t = str_eq "" t
has_suffix (String.◌∷◌ c s) t = str_eq (String.◌∷◌ c s) t || has_suffix s t

unfoldable pub has_prefix : String → String → Bool
has_prefix s String.[] = true
has_prefix String.[] (String.◌∷◌ d t) = false
has_prefix (String.◌∷◌ c s) (String.◌∷◌ d t) = code c == code d && has_prefix s t

abbrev pub has_dash : String → Bool
has_dash String.[] = false
has_dash (String.◌∷◌ c s) = code c == b'-' || has_dash s

-- A dash before a text.
abbrev pub dashed : String → String
dashed t = String.◌∷◌ "-" t

pub dash_append : (t : String) → "-" & t ≡ dashed t
dash_append t = append.cons "-" "" t ∙ ap dashed (append.nil t)

has_dash-append : (s t : String) → has_dash (s & dashed t) ≡ true
has_dash-append String.[] t = rw (append.nil (dashed t)) refl
has_dash-append (String.◌∷◌ c s) t =
    rw (append.cons c s (dashed t)) (ground (arith, has_dash-append s t))

ne_of_dash : (s t : String) → has_dash s ≡ false → has_dash t ≡ true → str_eq s t ≡ false
ne_of_dash s t h k = ground (arith, eq_iff s t, h, k)

-- A text without a dash does not end in one with a dash.
has_suffix-dash : (s t : String) → has_dash s ≡ false → has_suffix s (dashed t) ≡ false
unfolding has_suffix
has_suffix-dash String.[] t h = ne_of_dash "" (dashed t) refl refl
has_suffix-dash (String.◌∷◌ c s) t h =
    let rest : has_dash s ≡ false = ground (arith, h) in
    rw (ne_of_dash (String.◌∷◌ c s) (dashed t) h refl, has_suffix-dash s t rest) refl

-- After the last dash of a text, only that ending is a suffix with a dash.
pub has_suffix_lem :
    (s d e : String)
    → has_dash d ≡ false
    → has_dash e ≡ false
    → has_suffix (s & dashed d) (dashed e) ≡ str_eq d e
unfolding has_suffix
has_suffix_lem String.[] d e h k =
    rw (append.nil (dashed d), has_suffix-dash d e h)
      (ground (arith, eq_iff (dashed d) (dashed e), eq_iff d e))
has_suffix_lem (String.◌∷◌ c s) d e h k =
    rw (append.cons c s (dashed d), has_suffix_lem s d e h k)
      (ground (arith, k, has_dash-append s d, eq_iff (String.◌∷◌ c (s & dashed d)) (dashed e)))

abbrev head_code : String → ℕ
head_code String.[] = 0
head_code (String.◌∷◌ c s) = code c

-- Up to its first dash, a text is determined.
pub before_dash :
    (d e s t : String)
    → has_dash d ≡ false
    → has_dash e ≡ false
    → d & dashed s ≡ e & dashed t
    → d ≡ e
before_dash String.[] String.[] s t h k p = refl
before_dash String.[] (String.◌∷◌ c e) s t h k p =
    let clash : dashed s ≡ String.◌∷◌ c (e & dashed t) =
      sym (append.nil (dashed s)) ∙ p ∙ append.cons c e (dashed t) in
    ground (arith, k, ap head_code clash)
before_dash (String.◌∷◌ c d) String.[] s t h k p =
    let clash : String.◌∷◌ c (d & dashed s) ≡ dashed t =
      sym (append.cons c d (dashed s)) ∙ p ∙ append.nil (dashed t) in
    ground (arith, h, ap head_code clash)
before_dash (String.◌∷◌ c d) (String.◌∷◌ c' e) s t h k p =
    let both : String.◌∷◌ c (d & dashed s) ≡ String.◌∷◌ c' (e & dashed t) =
      sym (append.cons c d (dashed s)) ∙ p ∙ append.cons c' e (dashed t) in
    ground (arith, both, before_dash d e s t (ground (arith, h)) (ground (arith, k)))

-- Joining texts.
pub text_append_assoc : (s t u : String) → (s & t) & u ≡ s & t & u
text_append_assoc String.[] t u = rw (append.nil t, append.nil (t & u)) refl
text_append_assoc (String.◌∷◌ c s) t u =
    rw
      (append.cons c s t, append.cons c (s & t) u, append.cons c s (t & u), text_append_assoc s t u)
      refl

pub text_append_cancel : (p s t : String) → p & s ≡ p & t → s ≡ t
text_append_cancel String.[] s t h = sym (append.nil s) ∙ h ∙ append.nil t
text_append_cancel (String.◌∷◌ c p) s t h =
    let both : String.◌∷◌ c (p & s) ≡ String.◌∷◌ c (p & t) =
      sym (append.cons c p s) ∙ h ∙ append.cons c p t in
    text_append_cancel p s t (ground (arith, both))

pub has_prefix-append : (p s : String) → has_prefix (p & s) p ≡ true
unfolding has_prefix
has_prefix-append String.[] s = refl
has_prefix-append (String.◌∷◌ c p) s = rw (append.cons c p s, has_prefix-append p s) (ground arith)

pub ne_of_prefix :
    (p s t : String) → has_prefix s p ≡ true → has_prefix t p ≡ false → str_eq s t ≡ false
ne_of_prefix p s t h k = ground (arith, eq_iff s t, h, k)
