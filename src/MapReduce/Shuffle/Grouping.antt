-- ===== src/MapReduce/Shuffle/Grouping.antt =====
-- About the groups that one reduce task makes of its files, for `doReduce` in worker.go.
use text.Mathlib.Text.{◌==◌ as str_eq}
use text.Mathlib.TextEquality.{eq_iff}
use tda596_distributed_syste.Prelude.{
  append_assoc, append-[], ℕ, ◌+◌, ◌==◌, ◌&&◌, ◌||◌, ◌≡◌, refl, sym, ap, ◌∙◌, if◌then◌else◌, Bool,
  false, List, [], ◌∷◌, ◌++◌, map, String, count_if, arith,
}
use tda596_distributed_syste.MapReduce.Shuffle.{
  KeyValue, Group, add_value, collect_file, collect, values_at, reduce_lines,
}

unfoldable pub joined {ℓ} : {A : Type ℓ} → List (List A) → List A
joined [] = []
joined (x ∷ xs) = x ++ joined xs

-- The values that the pairs have for a key, in order.
unfoldable pub values_of : String → List KeyValue → List String
values_of key [] = []
values_of key (kv ∷ kvs) =
    let rest = values_of key kvs in if str_eq kv.key key then kv.value ∷ rest else rest

pub values_of-append :
    (key : String) (xs ys : List KeyValue)
    → values_of key (xs ++ ys) ≡ values_of key xs ++ values_of key ys
unfolding values_of
values_of-append key [] ys = refl
values_of-append key (kv ∷ xs) ys = ground (arith, values_of-append key xs ys)

values_at-add_value :
    (gs : List Group) (kv : KeyValue) (key : String)
    → values_at (add_value gs kv) key
      ≡ values_at gs key ++ (if str_eq kv.key key then kv.value ∷ [] else [])
unfolding values_at add_value
values_at-add_value [] kv key = ground arith
values_at-add_value (g ∷ gs) kv key = ground (
  arith,
  eq_iff g.key kv.key,
  eq_iff g.key key,
  eq_iff kv.key key,
  append-[] g.values,
  append-[] (values_at gs key),
  values_at-add_value gs kv key,
)

values_at-collect_file :
    (gs : List Group) (kvs : List KeyValue) (key : String)
    → values_at (collect_file gs kvs) key ≡ values_at gs key ++ values_of key kvs
unfolding collect_file values_of
values_at-collect_file gs [] key = sym (append-[] (values_at gs key))
values_at-collect_file gs (kv ∷ kvs) key =
    values_at-collect_file (add_value gs kv) kvs key
    ∙ ap (λ vs. vs ++ values_of key kvs) (values_at-add_value gs kv key)
    ∙ append_assoc (values_at gs key) (if str_eq kv.key key then kv.value ∷ [] else [])
        (values_of key kvs)
    ∙ ap (λ vs. values_at gs key ++ vs) (ground arith)

values_at-collect_from :
    (gs : List Group) (files : List (List KeyValue)) (key : String)
    → values_at (collect gs files) key ≡ values_at gs key ++ values_of key (joined files)
unfolding collect joined values_of
values_at-collect_from gs [] key = sym (append-[] (values_at gs key))
values_at-collect_from gs (f ∷ fs) key =
    values_at-collect_from (collect_file gs f) fs key
    ∙ ap (λ vs. vs ++ values_of key (joined fs)) (values_at-collect_file gs f key)
    ∙ append_assoc (values_at gs key) (values_of key f) (values_of key (joined fs))
    ∙ ap (λ vs. values_at gs key ++ vs) (sym (values_of-append key f (joined fs)))

pub values_at-collect :
    (files : List (List KeyValue)) (key : String)
    → values_at (collect [] files) key ≡ values_of key (joined files)
unfolding values_at
values_at-collect files key = values_at-collect_from [] files key

-- Whether some pair has the key.
unfoldable pub occurs : String → List KeyValue → Bool
occurs key [] = false
occurs key (kv ∷ kvs) = str_eq kv.key key || occurs key kvs

occurs-append :
    (key : String) (xs ys : List KeyValue)
    → occurs key (xs ++ ys) ≡ (occurs key xs || occurs key ys)
unfolding occurs
occurs-append key [] ys = refl
occurs-append key (kv ∷ xs) ys = ground (arith, occurs-append key xs ys)

-- How often a key stands among the groups.
abbrev times : String → List Group → ℕ
times key gs = count_if (λ g. str_eq g.key key) gs

times-add_value :
    (gs : List Group) (kv : KeyValue) (key : String)
    → times key (add_value gs kv)
      ≡ (if str_eq kv.key key && times key gs == 0 then 1 else times key gs)
unfolding add_value
times-add_value [] kv key = ground arith
times-add_value (g ∷ gs) kv key =
    ground
      (arith, eq_iff g.key kv.key, eq_iff g.key key, eq_iff kv.key key, times-add_value gs kv key)

times-collect_file :
    (gs : List Group) (kvs : List KeyValue) (key : String)
    → times key (collect_file gs kvs)
      ≡ (if occurs key kvs && times key gs == 0 then 1 else times key gs)
unfolding collect_file occurs
times-collect_file gs [] key = refl
times-collect_file gs (kv ∷ kvs) key =
    ground (arith, times-collect_file (add_value gs kv) kvs key, times-add_value gs kv key)

times-collect :
    (gs : List Group) (files : List (List KeyValue)) (key : String)
    → times key (collect gs files)
      ≡ (if occurs key (joined files) && times key gs == 0 then 1 else times key gs)
unfolding collect joined
times-collect gs [] key = unfold occurs in refl
times-collect gs (f ∷ fs) key = ground (
  arith,
  times-collect (collect_file gs f) fs key,
  times-collect_file gs f key,
  occurs-append key f (joined fs),
)

pub count_if-map :
    {A B : Type 0} (p : B → Bool) (f : A → B) (xs : List A)
    → count_if p (map f xs) ≡ count_if (λ x. p (f x)) xs
count_if-map p f [] = refl
count_if-map p f (x ∷ xs) = ap (λ n. (if p (f x) then 1 else 0) + n) (count_if-map p f xs)

map_cong :
    {A B : Type 0} (f g : A → B) → ((x : A) → f x ≡ g x) → (xs : List A) → map f xs ≡ map g xs
map_cong f g e [] = refl
map_cong f g e (x ∷ xs) = ground (arith, e x, map_cong f g e xs)

-- The output of a reduce task, for a sorting function that keeps how often each key occurs: a key has
-- one line if some pair in the task's files has it, and none otherwise; and the lines hold, in the
-- order of the sorted keys, each key and what the reduce function makes of it and all its values in
-- the files, in their order.
pub reduce_lines-collect :
    (sort_strings : List String → List String) (reducef : String → List String → String)
    (files : List (List KeyValue)) (key : String)
    → ((k : String) (xs : List String)
        → count_if (λ x. str_eq x k) (sort_strings xs) ≡ count_if (λ x. str_eq x k) xs)
    → let lines = reduce_lines sort_strings reducef (collect [] files) in
      let keys = sort_strings (map (λ g. g.key) (collect [] files)) in
      (count_if (λ (k, _). str_eq k key) lines ≡ (if occurs key (joined files) then 1 else 0))
      × (lines ≡ map (λ k. (k, reducef k (values_of k (joined files)))) keys)
unfolding reduce_lines
reduce_lines-collect sort_strings reducef files key sorts =
    let groups = collect [] files in
    let output : String → String × String = λ k. (k, reducef k (values_at groups k)) in
    (
      count_if-map (λ (k, _). str_eq k key) output (sort_strings (map (λ g. g.key) groups))
          ∙ sorts key (map (λ g. g.key) groups)
          ∙ count_if-map (λ k. str_eq k key) (λ g. g.key) groups
          ∙ times-collect [] files key
          ∙ ground arith,
      map_cong output (λ k. (k, reducef k (values_of k (joined files))))
          (λ k. ap (λ vs. (k, reducef k vs)) (values_at-collect files k))
          (sort_strings (map (λ g. g.key) groups)),
    )
