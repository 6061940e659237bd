-- ===== src/MapReduce/Cloud/Examples.antt =====
-- One map task that runs twice, its reduce task, and the download at the end.
use text.Mathlib.Text.{◌==◌ as str_eq}
use tda596_distributed_syste.Prelude.{
  ℕ, zero, suc, ◌==◌, ◌≡◌, refl, ap, Bool, if◌then◌else◌, true, false, Option, some, List, [], ◌∷◌,
  String, arith,
}
use tda596_distributed_syste.Prelude.Affixes.{has_dash}
use tda596_distributed_syste.Chord.Node.{StoredFile}
use tda596_distributed_syste.FileServer.{Env}
use tda596_distributed_syste.FileServer.Uploads.{TakesFiles}
use tda596_distributed_syste.MapReduce.Coordinator.{Coordinator, make_coordinator}
use tda596_distributed_syste.MapReduce.Shuffle.{KeyValue}
use tda596_distributed_syste.MapReduce.CloudFiles.{has_mark}
use tda596_distributed_syste.MapReduce.Cloud.{Format}
use tda596_distributed_syste.MapReduce.Cloud.Names.{IsPlain}
use tda596_distributed_syste.MapReduce.Cloud.Laws.{Key, listing}

abbrev tally : ℕ → String
tally zero = ""
tally (suc n) = String.◌∷◌ "i" (tally n)

abbrev pair : KeyValue
pair = record { key = "word"; value = "1" }

abbrev write_pairs : List KeyValue → String
write_pairs [] = ""
write_pairs (kv ∷ kvs) = "x"

abbrev read_pairs : String → List KeyValue
read_pairs String.[] = []
read_pairs (String.◌∷◌ c s) = pair ∷ []

abbrev simple : Format
simple = record { itoa = tally; encode = write_pairs; decode = read_pairs }

tally-injective : (a b : ℕ) → tally a ≡ tally b → a ≡ b
tally-injective zero zero e = refl
tally-injective zero (suc b) e = absurd (cc e)
tally-injective (suc a) zero e = absurd (cc e)
tally-injective (suc a) (suc b) e = ap suc (tally-injective a b (ground (arith, e)))

tally-no_dash : (a : ℕ) → has_dash (tally a) ≡ false
tally-no_dash zero = refl
tally-no_dash (suc a) = tally-no_dash a

tally-no_mark : (a : ℕ) → has_mark (tally a) ≡ false
tally-no_mark zero = refl
tally-no_mark (suc a) = tally-no_mark a

abbrev simple-IsPlain : IsPlain simple
simple-IsPlain = record {
  injective = tally-injective;
  no_dash = tally-no_dash;
  no_mark = tally-no_mark;
}

abbrev keys : List Key
keys = record { map_id = 0; reduce_id = 0 } ∷ []

abbrev folder : String → Option (List String)
folder dir =
    if str_eq dir "./root/tmp"
    then some (listing simple simple-IsPlain keys)
    else some ("pg-1.txt" ∷ "mr-out-" ∷ [])

abbrev server_env : Env
server_env = record {
  disk = record {
    can_create = λ name. true;
    can_write = λ name. true;
    can_remove = λ name. true;
    can_list = λ name. true;
  };
  read_dir = folder;
  directive = λ format. "";
}

abbrev takes : TakesFiles server_env
takes = record { removes = λ name. refl; creates = λ name. refl; writes = λ name. refl }

abbrev emit : String → String → List KeyValue
emit path text = pair ∷ []

abbrev input_files : List StoredFile
input_files = record { name = "./root/pg-1.txt"; content = "word" } ∷ []

abbrev output_files : List StoredFile
output_files = record { name = "./root/mr-out-"; content = "word 1" } ∷ []

-- A coordinator with no tasks is done.
abbrev idle : Coordinator
idle = make_coordinator [] [] 0 "local"

abbrev is_output : String → Bool
is_output name = str_eq name "mr-out-"
