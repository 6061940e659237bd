-- ===== src/MapReduce/Applications.antt =====
-- Lab3/src/mrapps/wc.go the map and reduce functions of the word count.
-- `fields_func` is `strings.FieldsFunc` with the test for letters, and `itoa` is `strconv.Itoa`.
use mathlib.Core.List.{Perm, Permᴰ}
use native.Mathlib.Nat.{ℕ_set}
use mathlib.Core.Logic.{∥∥₁_elim}
use text.Mathlib.Text.{◌==◌ as str_eq}
use tda596_distributed_syste.Prelude.{
  count_if-append, ℕ, suc, ◌<◌, ◌%◌, ◌==◌, ==_iff, ◌≡◌, refl, ap, ◌∙◌, if◌then◌else◌, none, some,
  List, [], ◌∷◌, map, String, length, count_if, length-append, arith,
}
use tda596_distributed_syste.MapReduce.Shuffle.{KeyValue, ihash, collect, reduce_lines}
use tda596_distributed_syste.MapReduce.Shuffle.Grouping.{joined, values_of, values_of-append}
use tda596_distributed_syste.MapReduce.Shuffle.Laws.{intermediate, intermediate_lem, for_task}
use tda596_distributed_syste.MapReduce.Sequential.Runs.{line_for, reduced}
use tda596_distributed_syste.MapReduce.Sequential.Agreement.{task_lines}

-- The loop over the words.
ones : List String → List KeyValue
ones [] = []
ones (w ∷ words) = record { key = w; value = "1" } ∷ ones words

-- `Map`
pub wc_map : (String → List String) → String → String → List KeyValue
unfolding ones
wc_map fields_func filename contents = ones (fields_func contents)

-- `Reduce`
pub wc_reduce : (ℕ → String) → String → List String → String
wc_reduce itoa key values = itoa (length values)

Permᴰ-length : {vs ws : List String} → Permᴰ vs ws → length vs ≡ length ws
Permᴰ-length Permᴰ.nil = refl
Permᴰ-length (Permᴰ.cons e d) = ap suc (Permᴰ-length d)
Permᴰ-length (Permᴰ.swap e f) = refl
Permᴰ-length (Permᴰ.trans d e) = Permᴰ-length d ∙ Permᴰ-length e

-- `Reduce` does not depend on the order of the values.
pub wc_reduce-perm :
    (itoa : ℕ → String) (key : String) (vs ws : List String)
    → Perm vs ws
    → wc_reduce itoa key vs ≡ wc_reduce itoa key ws
unfolding wc_reduce
wc_reduce-perm itoa key vs ws p = ap itoa (∥∥₁_elim p (ℕ_set (length vs) (length ws)) Permᴰ-length)

-- How often a word stands in the texts of the files.
abbrev occurrences : (String → List String) → String → List (String × String) → ℕ
occurrences fields_func word inputs =
    count_if (λ w. str_eq w word) (joined (map (λ (_, content). fields_func content) inputs))

length-values_of-ones :
    (word : String) (words : List String)
    → length (values_of word (ones words)) ≡ count_if (λ w. str_eq w word) words
unfolding ones values_of
length-values_of-ones word [] = refl
length-values_of-ones word (w ∷ words) = ground (arith, length-values_of-ones word words)

emitted :
    (fields_func : String → List String) (word : String) (inputs : List (String × String))
    → length (
        values_of word
          (joined (map (λ (filename, content). wc_map fields_func filename content) inputs)))
      ≡ occurrences fields_func word inputs
unfolding joined wc_map
emitted fields_func word [] = unfold values_of in refl
emitted fields_func word ((filename, content) ∷ inputs) =
    let rest = joined (map (λ (filename, content). wc_map fields_func filename content) inputs) in
    let words = fields_func content in
    ap length (values_of-append word (ones words) rest)
    ∙ length-append (values_of word (ones words)) (values_of word rest)
    ∙ omega (
      arith,
      length-values_of-ones word words,
      emitted fields_func word inputs,
      count_if-append (λ w. str_eq w word) words
          (joined (map (λ (_, content). fields_func content) inputs)),
    )

counted :
    (itoa : ℕ → String) (word : String) (values : List String)
    → reduced (wc_reduce itoa) word values
      ≡ (if length values == 0 then none else some (itoa (length values)))
unfolding wc_reduce
counted itoa word [] = refl
counted itoa word (v ∷ values) = ground arith

-- The word count: when the map tasks have run on the input files, the reduce task that a word belongs
-- to finds its files, and in its output the line of the word holds the number of its occurrences in
-- all the files; a word that does not occur has no line. The sort of the keys keeps how often each
-- occurs.
pub word_count :
    (sort_strings : List String → List String) (fields_func : String → List String)
    (itoa : ℕ → String) (fnv : String → ℕ) (n r : ℕ) (inputs : List (String × String))
    (word : String)
    → ((k : String) (xs : List String)
        → count_if (λ x. str_eq x k) (sort_strings xs) ≡ count_if (λ x. str_eq x k) xs)
    → r < n
    → ihash fnv word % n ≡ r
    → (files : List (List KeyValue)) × (intermediate fnv n r
          (map (λ (filename, content). wc_map fields_func filename content) inputs)
        ≡ some files)
      × (line_for word (reduce_lines sort_strings (wc_reduce itoa) (collect [] files)) ≡ (
          if occurrences fields_func word inputs == 0
          then none
          else some (itoa (occurrences fields_func word inputs))))
word_count sort_strings fields_func itoa fnv n r inputs word sorts h own =
    let outs = map (λ (filename, content). wc_map fields_func filename content) inputs in
    let line = (task_lines sort_strings (wc_reduce itoa) fnv n r outs word sorts).0 in
    let values = values_of word (joined outs) in
    let here = (==_iff (ihash fnv word % n) r).1 own in
    (
      map (for_task fnv n r) outs,
      intermediate_lem fnv n r outs h,
      line
          ∙ ap (λ b. reduced (wc_reduce itoa) word (if b then values else [])) here
          ∙ counted itoa word values
          ∙ ap (λ m. if m == 0 then none else some (itoa m)) (emitted fields_func word inputs),
    )
