-- ===== src/MapReduce/Indexer.antt =====
-- Lab3/src/mrapps/indexer.go the map and reduce functions of the index of words.
-- `fields_func` is `strings.FieldsFunc` with the test for letters, `itoa` prints a number, and `iterate`
-- is the order in which Go runs over the map of a document.
use text.Mathlib.Text.{◌==◌ as str_eq}
use text.Mathlib.TextEquality.{eq_iff}
use tda596_distributed_syste.Prelude.{
  ℕ, zero, suc, ◌+◌, ◌<◌, ◌%◌, ◌==◌, ==_iff, ◌≡◌, refl, ap, ◌∙◌, if◌then◌else◌, none, some, List,
  [], ◌∷◌, ◌++◌, map, String, length, count_if, arith, Bool-cases, inl, inr,
}
use tda596_distributed_syste.Prelude.Text.{◌&◌}
use tda596_distributed_syste.MapReduce.Shuffle.{KeyValue, ihash, collect, reduce_lines}
use tda596_distributed_syste.MapReduce.Shuffle.Grouping.{joined, values_of, values_of-append}
use tda596_distributed_syste.MapReduce.Shuffle.Laws.{intermediate, intermediate_lem, for_task}
use tda596_distributed_syste.MapReduce.Sequential.Runs.{line_for, reduced}
use tda596_distributed_syste.MapReduce.Sequential.Agreement.{task_lines}

-- `m[w] = true` on the keys of the map.
insert_word : String → List String → List String
insert_word w [] = w ∷ []
insert_word w (k ∷ keys) =
    let rest = insert_word w keys in if str_eq k w then k ∷ keys else k ∷ rest

-- The loop over the words.
seen_words : List String → List String → List String
unfolding insert_word
seen_words keys [] = keys
seen_words keys (w ∷ words) = seen_words (insert_word w keys) words

-- The loop over the map.
document_pairs : String → List String → List KeyValue
document_pairs document [] = []
document_pairs document (w ∷ words) =
    record { key = w; value = document } ∷ document_pairs document words

-- `Map`
pub indexer_map :
    (String → List String) → (String → List String → List String) → String → String → List KeyValue
unfolding seen_words document_pairs
indexer_map fields_func iterate document value =
    document_pairs document (iterate document (seen_words [] (fields_func value)))

-- `strings.Join`
unfoldable pub join : List String → String → String
join [] sep = ""
join (x ∷ []) sep = x
join (x ∷ y ∷ xs) sep = x & sep & join (y ∷ xs) sep

-- `Reduce`
pub indexer_reduce : (List String → List String) → (ℕ → String) → String → List String → String
unfolding join
indexer_reduce sort_strings itoa key values =
    itoa (length values) & " " & join (sort_strings values) ","

-- How often a text is in a list.
abbrev times : String → List String → ℕ
times word words = count_if (λ w. str_eq w word) words

-- A word is in the list once if it was there once, and not at all before the loop has met it.
times-insert_word :
    (word w : String) (keys : List String)
    → times word (insert_word w keys) ≡ (
        if str_eq w word
        then (if times word keys == 0 then 1 else times word keys)
        else times word keys)
unfolding insert_word
times-insert_word word w [] = ground arith
times-insert_word word w (k ∷ keys) =
    ground (arith, eq_iff k w, eq_iff k word, eq_iff w word, times-insert_word word w keys)

once : ℕ → ℕ
once n = if n == 0 then 0 else 1

times-seen_words :
    (word : String) (keys words : List String)
    → times word (seen_words keys words)
      ≡ (if times word keys == 0 then once (times word words) else times word keys)
unfolding seen_words once
times-seen_words word keys [] = ground arith
times-seen_words word keys (w ∷ words) =
    ground (arith, times-seen_words word (insert_word w keys) words, times-insert_word word w keys)

copies : ℕ → String → List String
copies zero s = []
copies (suc n) s = s ∷ copies n s

values_of-document_pairs :
    (word document : String) (words : List String)
    → values_of word (document_pairs document words) ≡ copies (times word words) document
unfolding values_of document_pairs copies
values_of-document_pairs word document [] = refl
values_of-document_pairs word document (w ∷ words) =
    let rest = values_of-document_pairs word document words in
    let same_count : times word words ≡ 0 + times word words = omega arith in
    let next : suc (times word words) ≡ 1 + times word words = omega arith in
    elim (Bool-cases (str_eq w word)) [
      | inl same ↦ rw same (ap (λ vs. document ∷ vs) rest ∙ ap (λ m. copies m document) next)
      | inr other ↦ rw other (rest ∙ ap (λ m. copies m document) same_count)
    ]

-- The names of the documents that contain a word, in order.
unfoldable pub documents : (String → List String) → String → List (String × String) → List String
documents fields_func word [] = []
documents fields_func word ((document, value) ∷ inputs) =
    let rest = documents fields_func word inputs in
    if times word (fields_func value) == 0 then rest else document ∷ rest

module _ (fields_func : String → List String) (iterate : String → List String → List String)
    (word : String)
    (kept : (document : String) (ws : List String)
      → times word (iterate document ws) ≡ times word ws) where
  values_of-indexer_map :
      (document value : String)
      → values_of word (indexer_map fields_func iterate document value)
        ≡ copies (once (times word (fields_func value))) document
  unfolding indexer_map
  values_of-indexer_map document value =
      let words = seen_words [] (fields_func value) in
      values_of-document_pairs word document (iterate document words)
      ∙ ap (λ n. copies n document)
          (kept document words ∙ times-seen_words word [] (fields_func value))

  indexed :
      (inputs : List (String × String))
      → values_of word (
          joined (map (λ (document, value). indexer_map fields_func iterate document value) inputs))
        ≡ documents fields_func word inputs
  unfolding joined documents values_of copies once
  indexed [] = refl
  indexed ((document, value) ∷ inputs) =
      let rest =
        joined (map (λ (document, value). indexer_map fields_func iterate document value) inputs) in
      values_of-append word (indexer_map fields_func iterate document value) rest
      ∙ ap (λ vs. vs ++ values_of word rest) (values_of-indexer_map document value)
      ∙ ap (λ vs. copies (once (times word (fields_func value))) document ++ vs) (indexed inputs)
      ∙ ground arith

said :
    (sort_strings : List String → List String) (itoa : ℕ → String) (word : String)
    (values : List String)
    → reduced (indexer_reduce sort_strings itoa) word values ≡ (
        if length values == 0
        then none
        else some (itoa (length values) & " " & join (sort_strings values) ","))
unfolding indexer_reduce
said sort_strings itoa word [] = refl
said sort_strings itoa word (v ∷ values) = ground arith

-- The index: when the map tasks have run on the documents, the reduce task that a word belongs to finds
-- its files, and in its output the line of the word holds the number of the documents that contain it,
-- and their names, sorted, each once for a document however often it contains the word; a word in no
-- document has no line. The order in which Go runs over a document's map and the sort keep how often
-- each text occurs.
pub word_index :
    (sort_strings : List String → List String) (fields_func : String → List String)
    (iterate : String → List String → List String) (itoa : ℕ → String) (fnv : String → ℕ) (n r : ℕ)
    (inputs : List (String × String)) (word : String)
    → ((k : String) (xs : List String) → times k (sort_strings xs) ≡ times k xs)
    → ((document : String) (ws : List String) → times word (iterate document ws) ≡ times word ws)
    → r < n
    → ihash fnv word % n ≡ r
    → (files : List (List KeyValue)) × (intermediate fnv n r
          (map (λ (document, value). indexer_map fields_func iterate document value) inputs)
        ≡ some files)
      × (line_for word
            (reduce_lines sort_strings (indexer_reduce sort_strings itoa) (collect [] files))
          ≡ (let found = documents fields_func word inputs in
              if length found == 0
              then none
              else some (itoa (length found) & " " & join (sort_strings found) ",")))
word_index sort_strings fields_func iterate itoa fnv n r inputs word sorts kept h own =
    let outs = map (λ (document, value). indexer_map fields_func iterate document value) inputs in
    let reduce = indexer_reduce sort_strings itoa in
    let here = (==_iff (ihash fnv word % n) r).1 own in
    (
      map (for_task fnv n r) outs,
      intermediate_lem fnv n r outs h,
      (task_lines sort_strings reduce fnv n r outs word sorts).0
          ∙ ap (λ b. reduced reduce word (if b then values_of word (joined outs) else [])) here
          ∙ ap (reduced reduce word) (indexed fields_func iterate word kept inputs)
          ∙ said sort_strings itoa word (documents fields_func word inputs),
    )
