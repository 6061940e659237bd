-- ===== src/MapReduce/Sequential/Runs.antt =====
-- The runs of equal keys in a sorted list of pairs.
use text.Mathlib.Text.{◌==◌ as str_eq}
use text.Mathlib.TextEquality.{eq_iff}
use tda596_distributed_syste.Prelude.{
  ℕ, zero, suc, ◌≤◌, ◌≡◌, refl, sym, ◌∙◌, if◌then◌else◌, true, false, inl, inr, Bool-cases, Option,
  none, some, List, [], ◌∷◌, String, length, count_if, arith,
}
use tda596_distributed_syste.Prelude.TextOrder.{
  text_lt, text_lt_trans, text_lt_of_ne, ne_of_text_lt,
}
use tda596_distributed_syste.MapReduce.Shuffle.{KeyValue}
use tda596_distributed_syste.MapReduce.Shuffle.Grouping.{values_of}
use tda596_distributed_syste.MapReduce.Sequential.{less, split_run, cons_line, key_lines}

-- No pair has a smaller key.
abbrev pub AtLeast : KeyValue → List KeyValue → Type 0
AtLeast a [] = Unit {0}
AtLeast a (x ∷ xs) = (less x a ≡ false) × AtLeast a xs

-- No pair stands before one with a smaller key.
abbrev pub IsOrdered : List KeyValue → Type 0
IsOrdered [] = Unit {0}
IsOrdered (x ∷ xs) = AtLeast x xs × IsOrdered xs

values_of-above :
    (key : String) (a : KeyValue) (xs : List KeyValue)
    → text_lt key a.key ≡ true
    → AtLeast a xs
    → values_of key xs ≡ []
unfolding values_of
values_of-above key a [] h k = refl
values_of-above key a (x ∷ xs) h k =
    let later = text_lt_trans key a.key x.key h k.0 in
    let other = ne_of_text_lt key x.key later in
    ground (arith, eq_iff key x.key, eq_iff x.key key, values_of-above key a xs h k.1)

-- What `split_run` leaves: the values of the key are all taken, and those of other keys all left.
pub record IsSplit (key : String) (kvs : List KeyValue) (values : List String)
    (rest : List KeyValue) : Type 0 where
  pub taken : values ≡ values_of key kvs
  pub none_left : values_of key rest ≡ []
  pub others : (k : String) → str_eq key k ≡ false → values_of k rest ≡ values_of k kvs
  pub ordered : IsOrdered rest
  pub shorter : length rest ≤ length kvs

taken-IsSplit :
    (key : String) (x : KeyValue) (xs : List KeyValue) (values : List String) (rest : List KeyValue)
    → str_eq x.key key ≡ true
    → IsSplit key xs values rest
    → IsSplit key (x ∷ xs) (x.value ∷ values) rest
unfolding values_of
taken-IsSplit key x xs values rest same later = record {
  taken = ground (arith, later.taken);
  none_left = later.none_left;
  others = λ k e. later.others k e ∙ ground (arith, eq_iff x.key key);
  ordered = later.ordered;
  shorter = omega (arith, later.shorter);
}

left-IsSplit :
    (key : String) (x : KeyValue) (xs : List KeyValue)
    → text_lt x.key key ≡ false
    → str_eq x.key key ≡ false
    → IsOrdered (x ∷ xs)
    → IsSplit key (x ∷ xs) [] (x ∷ xs)
unfolding values_of
left-IsSplit key x xs h other s =
    let before = text_lt_of_ne key x.key h (ground (arith, eq_iff x.key key, eq_iff key x.key)) in
    let nothing : values_of key (x ∷ xs) ≡ [] = rw other (values_of-above key x xs before s.0) in
    record {
      taken = sym nothing;
      none_left = nothing;
      others = λ k e. refl;
      ordered = s;
      shorter = omega arith;
    }

split_run-IsSplit :
    (a : KeyValue) (kvs : List KeyValue)
    → AtLeast a kvs
    → IsOrdered kvs
    → IsSplit a.key kvs (split_run a.key kvs).0 (split_run a.key kvs).1
unfolding split_run
split_run-IsSplit a [] h s = record {
  taken = unfold values_of in refl;
  none_left = unfold values_of in refl;
  others = λ k e. refl;
  ordered = tt;
  shorter = omega arith;
}
split_run-IsSplit a (x ∷ xs) h s =
    let later = split_run-IsSplit a xs h.1 s.1 in
    elim (Bool-cases (str_eq x.key a.key)) [
      | inl same ↦
          rw same
            (taken-IsSplit a.key x xs (split_run a.key xs).0 (split_run a.key xs).1 same later)
      | inr other ↦ rw other (left-IsSplit a.key x xs h.0 other s)
    ]

-- What the lines say of a key: the value of its first line.
unfoldable pub line_for : String → List (String × String) → Option String
line_for key [] = none
line_for key ((k, v) ∷ lines) = if str_eq k key then some v else line_for key lines

-- The output for a key with these values.
abbrev pub reduced : (String → List String → String) → String → List String → Option String
reduced reducef key [] = none
reduced reducef key (v ∷ vs) = some (reducef key (v ∷ vs))

abbrev pub lines_with : List String → ℕ
lines_with [] = 0
lines_with (v ∷ vs) = 1

-- Lines that say of every key what the reduce function makes of its values, once.
abbrev pub IsReduced :
    (String → List String → String) → List KeyValue → Option (List (String × String)) → Type 0
IsReduced reducef kvs none = ⊥
IsReduced reducef kvs (some lines) =
    (key : String)
    → (line_for key lines ≡ reduced reducef key (values_of key kvs))
      × (count_if (λ (k, _). str_eq k key) lines ≡ lines_with (values_of key kvs))

cons_line-IsReduced :
    (reducef : String → List String → String) (a : KeyValue) (kvs : List KeyValue)
    (values : List String) (rest : List KeyValue) (o : Option (List (String × String)))
    → IsSplit a.key kvs values rest
    → IsReduced reducef rest o
    → IsReduced reducef (a ∷ kvs) (cons_line (a.key, reducef a.key (a.value ∷ values)) o)
unfolding cons_line line_for values_of
cons_line-IsReduced reducef a kvs values rest none split r = r
cons_line-IsReduced reducef a kvs values rest (some lines) split r = λ key.
    ground (
      arith,
      eq_iff a.key key,
      split.taken,
      split.none_left,
      split.others key,
      (r key).0,
      (r key).1,
    )

pub key_lines-IsReduced :
    (reducef : String → List String → String) (fuel : ℕ) (kvs : List KeyValue)
    → length kvs ≤ fuel
    → IsOrdered kvs
    → IsReduced reducef kvs (key_lines reducef fuel kvs)
unfolding key_lines
key_lines-IsReduced reducef fuel [] h s = λ key. unfold line_for values_of in (refl, refl)
key_lines-IsReduced reducef zero (kv ∷ kvs) h s = absurd (omega arith)
key_lines-IsReduced reducef (suc fuel) (kv ∷ kvs) h s =
    let split = split_run-IsSplit kv kvs s.0 s.1 in
    cons_line-IsReduced reducef kv kvs (split_run kv.key kvs).0 (split_run kv.key kvs).1
      (key_lines reducef fuel (split_run kv.key kvs).1) split
      (key_lines-IsReduced reducef fuel (split_run kv.key kvs).1 (omega (arith, split.shorter))
        split.ordered)
