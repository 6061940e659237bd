-- ===== src/MapReduce/Cloud/Names.antt =====
-- The names of the files that the workers of Lab3/src/mr/worker.go exchange.
use Prim.Native.String.append
use text.Mathlib.Text.{◌==◌ as str_eq}
use text.Mathlib.TextEquality.{eq_iff}
use tda596_distributed_syste.Prelude.{
  ℕ, ◌==◌, ◌≡◌, refl, sym, ap, ◌∙◌, inl, inr, Bool-cases, true, false, ◌&&◌, String, arith,
}
use tda596_distributed_syste.Prelude.Text.{◌&◌}
use tda596_distributed_syste.Prelude.Affixes.{
  has_dash, dashed, dash_append, before_dash, text_append_assoc, text_append_cancel, has_suffix_lem,
  has_suffix, has_prefix, has_prefix-append, ne_of_prefix,
}
use tda596_distributed_syste.FileServer.Laws.{is_special}
use tda596_distributed_syste.MapReduce.Cloud.{Format, map_output_path, is_for_task}
use tda596_distributed_syste.MapReduce.CloudFiles.{has_mark}

-- Numbers are printed apart, without dashes, spaces and percent signs.
pub record IsPlain (format : Format) : Type 0 where
  pub injective : (a b : ℕ) → format.itoa a ≡ format.itoa b → a ≡ b
  pub no_dash : (a : ℕ) → has_dash (format.itoa a) ≡ false
  pub no_mark : (a : ℕ) → has_mark (format.itoa a) ≡ false

module _ (format : Format) (plain : IsPlain format) where
  open format use {itoa}

  -- What the server lists for the file of reduce task `i` from map task `m`.
  abbrev pub listed_name : ℕ → ℕ → String
  listed_name m i = ("mr-" & itoa m & "-") & "-" & itoa i

  abbrev pub stored_name : ℕ → ℕ → String
  stored_name m i = "./root/tmp/" & listed_name m i

  listed_name_lem : (m i : ℕ) → listed_name m i ≡ "mr-" & itoa m & dashed (dashed (itoa i))
  listed_name_lem m i =
      text_append_assoc "mr-" (itoa m & "-") ("-" & itoa i)
      ∙ ap (λ s. "mr-" & s)
          (text_append_assoc (itoa m) "-" ("-" & itoa i)
            ∙ ap (λ s. itoa m & s) (dash_append ("-" & itoa i) ∙ ap dashed (dash_append (itoa i))))

  pub path_stored : (m i : ℕ) → "." & "/root/" & map_output_path format m i ≡ stored_name m i
  unfolding map_output_path
  path_stored m i =
      ap (λ s. "." & "/root/" & s)
        (text_append_assoc "tmp" ("/mr-" & itoa m & "-") ("-" & itoa i)
          ∙ ap (λ s. "tmp" & s) (text_append_assoc "/mr-" (itoa m & "-") ("-" & itoa i)))
      ∙ sym (text_append_assoc "." "/root/" ("tmp" & "/mr-" & (itoa m & "-") & "-" & itoa i))
      ∙ sym (text_append_assoc "./root/" "tmp" ("/mr-" & (itoa m & "-") & "-" & itoa i))
      ∙ sym (text_append_assoc "./root/tmp" "/mr-" ((itoa m & "-") & "-" & itoa i))
      ∙ text_append_assoc "./root/tmp/" "mr-" ((itoa m & "-") & "-" & itoa i)
      ∙ ap (λ s. "./root/tmp/" & s) (sym (text_append_assoc "mr-" (itoa m & "-") ("-" & itoa i)))

  pub path_fetched : (m i : ℕ) → "." & "/root/" & "tmp/" & listed_name m i ≡ stored_name m i
  path_fetched m i =
      sym (text_append_assoc "." "/root/" ("tmp/" & listed_name m i))
      ∙ sym (text_append_assoc "./root/" "tmp/" (listed_name m i))

  -- Two files have one name only if they are of the same tasks.
  listed_name-injective :
      (m i m' i' : ℕ) → listed_name m i ≡ listed_name m' i' → (m ≡ m') × (i ≡ i')
  listed_name-injective m i m' i' e =
      let parts =
        text_append_cancel "mr-" (itoa m & dashed (dashed (itoa i)))
          (itoa m' & dashed (dashed (itoa i')))
          (sym (listed_name_lem m i) ∙ e ∙ listed_name_lem m' i') in
      let maps : itoa m ≡ itoa m' =
        before_dash (itoa m) (itoa m') (dashed (itoa i)) (dashed (itoa i')) (plain.no_dash m)
          (plain.no_dash m') parts in
      let rest =
        text_append_cancel (itoa m) (dashed (dashed (itoa i))) (dashed (dashed (itoa i')))
          (parts ∙ ap (λ s. s & dashed (dashed (itoa i'))) (sym maps)) in
      (plain.injective m m' maps, plain.injective i i' (ground (arith, rest)))

  pub stored_name-eq :
      (m i m' i' : ℕ) → str_eq (stored_name m i) (stored_name m' i') ≡ (m == m' && i == i')
  stored_name-eq m i m' i' = elim (Bool-cases (str_eq (stored_name m i) (stored_name m' i'))) [
    | inl same ↦
        let (maps, tasks) = listed_name-injective m i m' i' (
          text_append_cancel "./root/tmp/" (listed_name m i) (listed_name m' i')
            ((eq_iff (stored_name m i) (stored_name m' i')).0 same)) in
        rw same (ground (arith, maps, tasks))
    | inr differs ↦
        rw differs (ground (arith, differs, eq_iff (stored_name m i) (stored_name m' i')))
  ]

  printed_eq : (i r : ℕ) → str_eq (itoa i) (itoa r) ≡ (i == r)
  printed_eq i r = elim (Bool-cases (str_eq (itoa i) (itoa r))) [
    | inl same ↦
        let is = plain.injective i r ((eq_iff (itoa i) (itoa r)).0 same) in
        rw same (ground (arith, is))
    | inr differs ↦ rw differs (ground (arith, differs, eq_iff (itoa i) (itoa r)))
  ]

  -- A reduce task picks its files, by their ending.
  pub is_for_task_lem : (m i r : ℕ) → is_for_task format r (listed_name m i) ≡ (i == r)
  unfolding is_for_task
  is_for_task_lem m i r =
      let begins : has_prefix (listed_name m i) "mr-" ≡ true =
        ap (λ s. has_prefix s "mr-") (text_append_assoc "mr-" (itoa m & "-") ("-" & itoa i))
        ∙ has_prefix-append "mr-" ((itoa m & "-") & "-" & itoa i) in
      let ends : has_suffix (listed_name m i) ("-" & itoa r) ≡ str_eq (itoa i) (itoa r) =
        ap (λ s. has_suffix (("mr-" & itoa m & "-") & s) ("-" & itoa r)) (dash_append (itoa i))
        ∙ ap (λ s. has_suffix (("mr-" & itoa m & "-") & dashed (itoa i)) s) (dash_append (itoa r))
        ∙ has_suffix_lem ("mr-" & itoa m & "-") (itoa i) (itoa r) (plain.no_dash i)
            (plain.no_dash r) in
      rw (begins, ends) (printed_eq i r)

is_special_of_prefix :
    (path p : String)
    → has_prefix path p ≡ true
    → has_prefix "/" p ≡ false
    → has_prefix "/root" p ≡ false
    → has_prefix "/root/" p ≡ false
    → has_prefix "/root/tmp" p ≡ false
    → has_prefix "/root/tmp/" p ≡ false
    → is_special path ≡ false
is_special_of_prefix path p h a b c d e =
    rw
      (
        ne_of_prefix p path "/" h a,
        ne_of_prefix p path "/root" h b,
        ne_of_prefix p path "/root/" h c,
        ne_of_prefix p path "/root/tmp" h d,
        ne_of_prefix p path "/root/tmp/" h e,
      )
      refl

-- A path under the folder that starts with an "m" is not listed or greeted.
pub plain_output : (y : String) → is_special ("/root/" & "m" & y) ≡ false
unfolding has_prefix
plain_output y =
    is_special_of_prefix ("/root/" & "m" & y) "/root/m"
      (ap (λ s. has_prefix s "/root/m") (sym (text_append_assoc "/root/" "m" y))
        ∙ has_prefix-append "/root/m" y)
      refl refl refl refl refl

pub plain_intermediate : (y : String) → is_special ("/root/" & "tmp/" & "m" & y) ≡ false
unfolding has_prefix
plain_intermediate y =
    is_special_of_prefix ("/root/" & "tmp/" & "m" & y) "/root/tmp/m"
      (ap (λ s. has_prefix s "/root/tmp/m")
          (sym (text_append_assoc "/root/" "tmp/" ("m" & y))
            ∙ sym (text_append_assoc "/root/tmp/" "m" y))
        ∙ has_prefix-append "/root/tmp/m" y)
      refl refl refl refl refl

pub plain_upload :
    (format : Format) (m i : ℕ) → is_special ("/root/" & map_output_path format m i) ≡ false
unfolding map_output_path
plain_upload format m i =
    let rest = (format.itoa m & "-") & "-" & format.itoa i in
    ap (λ s. is_special ("/root/" & s))
      (text_append_assoc "tmp" ("/mr-" & format.itoa m & "-") ("-" & format.itoa i)
        ∙ ap (λ s. "tmp" & s) (text_append_assoc "/mr-" (format.itoa m & "-") ("-" & format.itoa i))
        ∙ sym (text_append_assoc "tmp" "/mr-" rest)
        ∙ text_append_assoc "tmp/" "mr-" rest
        ∙ ap (λ s. "tmp/" & s) (text_append_assoc "m" "r-" rest))
    ∙ plain_intermediate ("r-" & rest)

has_mark-append :
    (s t : String) → has_mark s ≡ false → has_mark t ≡ false → has_mark (s & t) ≡ false
has_mark-append String.[] t h k = rw (append.nil t) k
has_mark-append (String.◌∷◌ c s) t h k =
    rw (append.cons c s t) (ground (arith, h, has_mark-append s t (ground (arith, h)) k))

pub listed_name-plain :
    (format : Format) (plain : IsPlain format) (m i : ℕ)
    → has_mark (listed_name format plain m i) ≡ false
listed_name-plain format plain m i =
    has_mark-append ("mr-" & format.itoa m & "-") ("-" & format.itoa i)
      (has_mark-append "mr-" (format.itoa m & "-") refl
        (has_mark-append (format.itoa m) "-" (plain.no_mark m) refl))
      (has_mark-append "-" (format.itoa i) refl (plain.no_mark i))

pub plain_download :
    (format : Format) (plain : IsPlain format) (m i : ℕ)
    → is_special ("/root/" & "tmp/" & listed_name format plain m i) ≡ false
plain_download format plain m i =
    let rest = (format.itoa m & "-") & "-" & format.itoa i in
    ap (λ s. is_special ("/root/" & "tmp/" & s))
      (text_append_assoc "mr-" (format.itoa m & "-") ("-" & format.itoa i)
        ∙ text_append_assoc "m" "r-" rest)
    ∙ plain_intermediate ("r-" & rest)
