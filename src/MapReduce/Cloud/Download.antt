-- ===== src/MapReduce/Cloud/Download.antt =====
-- Done of Lab3/src/mr/coordinator.go in the cloud.
use text.Mathlib.Text.{◌==◌ as str_eq}
use tda596_distributed_syste.Prelude.{◌≡◌, ◌||◌, Bool, true, false, some, List, [], ◌∷◌, String}
use tda596_distributed_syste.Prelude.Text.{◌&◌}
use tda596_distributed_syste.Chord.Node.{StoredFile}
use tda596_distributed_syste.Chord.Storage.{Disk, read_file}
use tda596_distributed_syste.FileServer.{Env}
use tda596_distributed_syste.FileServer.Laws.{is_special}
use tda596_distributed_syste.MapReduce.Coordinator.{Coordinator}

-- A disk that takes every file.
abbrev pub Takes : Disk → Type 0
Takes disk = (name : String) → (disk.can_create name ≡ true) × (disk.can_write name ≡ true)

abbrev pub mem_name : String → List String → Bool
mem_name name [] = false
mem_name name (n ∷ names) = str_eq n name || mem_name name names

module _ (env : Env) (disk : Disk) (server : List StoredFile) (content : String → String) where
  -- The files of these names are on the server.
  abbrev pub OnServer : List String → Type 0
  OnServer [] = Unit {0}
  OnServer (name ∷ names) =
      (is_special ("/root/" & name) ≡ false)
      × (read_file server ("." & "/root/" & name) ≡ some (content name))
      × OnServer names
