-- ===== src/MapReduce/Sequential/Examples.antt =====
-- Small jobs for the sequential program and the word count, with an insertion sort.
use text.Mathlib.Text.{◌==◌ as str_eq}
use mathlib.Core.List.{Perm}
use mathlib.Core.List.Perm
use tda596_distributed_syste.Prelude.{
  is_some, ℕ, zero, suc, ◌≡◌, refl, if◌then◌else◌, false, inl, inr, Bool-cases, none, some, List,
  [], ◌∷◌, map, String, arith,
}
use tda596_distributed_syste.Prelude.TextOrder.{text_lt_trans, text_lt_asymm}
use tda596_distributed_syste.MapReduce.Shuffle.{KeyValue, collect, reduce_lines}
use tda596_distributed_syste.MapReduce.Shuffle.Grouping.{joined}
use tda596_distributed_syste.MapReduce.Shuffle.Laws.{intermediate}
use tda596_distributed_syste.MapReduce.Sequential.{less, sequential_lines}
use tda596_distributed_syste.MapReduce.Sequential.Termination.{sequential_lines_returns}
use tda596_distributed_syste.MapReduce.Sequential.Runs.{AtLeast, IsOrdered, line_for}
use tda596_distributed_syste.MapReduce.Sequential.Agreement.{SaysTheSame, distributed-eq-sequential}
use tda596_distributed_syste.MapReduce.Applications.{wc_map, wc_reduce, wc_reduce-perm, word_count}
use tda596_distributed_syste.MapReduce.Indexer.{
  indexer_map, indexer_reduce, documents, join, word_index,
}

insert : KeyValue → List KeyValue → List KeyValue
insert a [] = a ∷ []
insert a (x ∷ xs) = let rest = insert a xs in if less x a then x ∷ rest else a ∷ x ∷ xs

insertion_sort : List KeyValue → List KeyValue
insertion_sort [] = []
insertion_sort (x ∷ xs) = insert x (insertion_sort xs)

insert-perm : (a : KeyValue) (xs : List KeyValue) → Perm (insert a xs) (a ∷ xs)
unfolding insert
insert-perm a [] = Perm.rfl
insert-perm a (x ∷ xs) =
    let rest = insert-perm a xs in
    elim (Bool-cases (less x a)) [
      | inl e ↦ rw e (Perm.trans (Perm.cons x rest) (Perm.swap a x xs))
      | inr e ↦ rw e Perm.rfl
    ]

insertion_sort-perm : (xs : List KeyValue) → Perm (insertion_sort xs) xs
unfolding insertion_sort
insertion_sort-perm [] = Perm.rfl
insertion_sort-perm (x ∷ xs) =
    Perm.trans (insert-perm x (insertion_sort xs)) (Perm.cons x (insertion_sort-perm xs))

-- What is not below an element is not below one before it.
AtLeast-trans :
    (a x : KeyValue) (xs : List KeyValue) → less x a ≡ false → AtLeast x xs → AtLeast a xs
AtLeast-trans a x [] h k = tt
AtLeast-trans a x (y ∷ xs) h k =
    let not_below : less y a ≡ false = elim (Bool-cases (less y a)) [
      | inl e ↦ ground (arith, text_lt_trans y.key a.key x.key e h, k.0)
      | inr e ↦ e
    ] in
    (not_below, AtLeast-trans a x xs h k.1)

AtLeast-insert :
    (b a : KeyValue) (xs : List KeyValue)
    → less a b ≡ false
    → AtLeast b xs
    → AtLeast b (insert a xs)
unfolding insert
AtLeast-insert b a [] h k = (h, tt)
AtLeast-insert b a (x ∷ xs) h k =
    let rest = AtLeast-insert b a xs h k.1 in
    elim (Bool-cases (less x a)) [ inl e ↦ rw e (k.0, rest) | inr e ↦ rw e (h, k) ]

insert-IsOrdered : (a : KeyValue) (xs : List KeyValue) → IsOrdered xs → IsOrdered (insert a xs)
unfolding insert
insert-IsOrdered a [] s = (tt, tt)
insert-IsOrdered a (x ∷ xs) s =
    let rest = insert-IsOrdered a xs s.1 in
    elim (Bool-cases (less x a)) [
      | inl e ↦ rw e (AtLeast-insert x a xs (text_lt_asymm x.key a.key e) s.0, rest)
      | inr e ↦ rw e ((e, AtLeast-trans a x xs e s.0), s)
    ]

insertion_sort-IsOrdered : (xs : List KeyValue) → IsOrdered (insertion_sort xs)
unfolding insertion_sort
insertion_sort-IsOrdered [] = tt
insertion_sort-IsOrdered (x ∷ xs) =
    insert-IsOrdered x (insertion_sort xs) (insertion_sort-IsOrdered xs)

-- Two files of words; the stand-in for FNV sends "a" to reduce task 1 and the rest to 0.
abbrev first_letter : String → ℕ
first_letter s = if str_eq s "a" then 1 else 2

abbrev two_files : List (String × String)
two_files = ("x.txt", "b") ∷ ("y.txt", "a") ∷ []

abbrev whole : String → List String
whole s = s ∷ "b" ∷ []

abbrev count_name : ℕ → String
count_name zero = "0"
count_name (suc zero) = "1"
count_name (suc (suc n)) = "many"

distributed-eq-sequential_example :
    (lines : List (String × String)) × (files : List (List KeyValue)) × (sequential_lines
        insertion_sort
        (wc_map whole)
        (wc_reduce count_name)
        (map (λ (filename, content). (filename, some content)) two_files)
      ≡ some lines)
    × (intermediate first_letter 2 0
          (map (λ (filename, content). wc_map whole filename content) two_files)
        ≡ some files)
    × SaysTheSame first_letter 2 0 "b" lines
        (reduce_lines (λ keys. keys) (wc_reduce count_name) (collect [] files))
distributed-eq-sequential_example =
    distributed-eq-sequential insertion_sort (λ keys. keys) (wc_map whole) (wc_reduce count_name)
      first_letter 2 0 two_files "b" insertion_sort-IsOrdered insertion_sort-perm (λ k xs. refl)
      (wc_reduce-perm count_name) (omega arith)

word_count_example :
    (files : List (List KeyValue)) × (intermediate first_letter 2 0
        (map (λ (filename, content). wc_map whole filename content) two_files)
      ≡ some files)
    × (line_for "b" (reduce_lines (λ keys. keys) (wc_reduce count_name) (collect [] files))
        ≡ some "many")
unfolding joined
word_count_example =
    word_count (λ keys. keys) whole count_name first_letter 2 0 two_files "b" (λ k xs. refl)
      (omega arith) refl

-- The word "b" stands twice in the first file.
word_index_example :
    (files : List (List KeyValue)) × (intermediate first_letter 2 0
        (map (λ (document, value). indexer_map whole (λ d ws. ws) document value) two_files)
      ≡ some files)
    × (line_for "b" (
          reduce_lines (λ keys. keys) (indexer_reduce (λ keys. keys) count_name) (collect [] files))
        ≡ some "many x.txt,y.txt")
unfolding documents join
word_index_example =
    word_index (λ keys. keys) whole (λ d ws. ws) count_name first_letter 2 0 two_files "b"
      (λ k xs. refl) (λ d ws. refl) (omega arith) refl

sequential_lines_returns_example :
    is_some (
      sequential_lines insertion_sort
        (wc_map whole)
        (wc_reduce count_name)
        (("x.txt", some "b") ∷ ("gone.txt", none) ∷ []))
    ≡ false
sequential_lines_returns_example =
    sequential_lines_returns insertion_sort (wc_map whole) (wc_reduce count_name)
      (("x.txt", some "b") ∷ ("gone.txt", none) ∷ [])
