-- ===== src/Tailer.antt =====
-- internal/tailer/persister.go, tailer.go: the store of the file offsets, its checkpoint file, and the
-- start of the tailer. Bytes are a text.
pub mod Laws
use Prim.Native.String.{◌++◌}
use network_enforcer.Common.{
  ℕ, String, List, [], ◌∷◌, Option, none, some, Bool, true, false, not, ◌==◌, string_eq, length,
  nat_beq, if◌then◌else◌,
}
use network_enforcer.Common.Int.{ℤ, pos, negsuc, leb_ℤ}
use network_enforcer.Common.Map.{lookup, insert, remove}

-- the checkpoint file and its temporary file, by their contents
pub record Disk : Type 0 where
  pub file : Option String
  pub temporary : Option String

pub record FilePersister : Type 0 where
  pub entries : List (String × String)
  pub disk : Disk

-- how the file system answers one flush: a write may stop anywhere
pub data Fault : Type 0 where
  no_fault : Fault
  write_failed : String → Fault
  rename_failed : Fault

-- what os.ReadFile and json.Unmarshal answer
pub data Contents : Type 0 where
  not_exist : Contents
  read_failed : Contents
  contents : String → Contents

pub data Decoded : Type 0 where
  decode_failed : Decoded
  decoded_null : Decoded
  decoded : List (String × String) → Decoded

pub data Operation : Type 0 where
  op_set : String → String → Operation
  op_delete : String → Operation
  op_get : String → Operation
  op_unknown : Operation

abbrev pub disk_of : Contents → Disk
disk_of not_exist = record { file = none; temporary = none }
disk_of read_failed = record { file = none; temporary = none }
disk_of (contents raw) = record { file = some raw; temporary = none }

abbrev pub store_of : Decoded → List (String × String)
store_of decode_failed = []
store_of decoded_null = []
store_of (decoded entries) = entries

unfoldable pub get : FilePersister → String → Option String
get p k = lookup k p.entries

-- `encode` is json.Marshal of the store, which may fail, and `decode` json.Unmarshal.
module _ (encode : List (String × String) → Option String) (decode : String → Decoded) where
  -- `none` is an error
  unfoldable pub new_file_persister : Contents → Option FilePersister
  new_file_persister not_exist = some (record { entries = []; disk = disk_of not_exist })
  new_file_persister read_failed = none
  new_file_persister (contents raw) =
      if raw == ""
      then some (record { entries = []; disk = disk_of (contents raw) })
      else some (record { entries = store_of (decode raw); disk = disk_of (contents raw) })

  abbrev pub write_out : Disk → String → Fault → Bool × Disk
  write_out disk raw no_fault = (true, record { file = some raw; temporary = none })
  write_out disk raw (write_failed partial) = (false, record disk { temporary = some partial })
  write_out disk raw rename_failed = (false, record disk { temporary = some raw })

  abbrev pub flush_encoded : Disk → Option String → Fault → Bool × Disk
  flush_encoded disk none fault = (false, disk)
  flush_encoded disk (some raw) fault = write_out disk raw fault

  -- whether there was no error
  unfoldable pub flush : FilePersister → Fault → Bool × FilePersister
  flush p fault =
      let result = flush_encoded p.disk (encode p.entries) fault in
      (result.0, record p { disk = result.1 })

  unfoldable pub reset : FilePersister → Fault → Bool × FilePersister
  reset p fault = flush (record p { entries = [] }) fault

  unfoldable pub set : FilePersister → String → String → Fault → Bool × FilePersister
  set p k v fault = flush (record p { entries = insert k v p.entries }) fault

  unfoldable pub delete : FilePersister → String → Fault → Bool × FilePersister
  delete p k fault = flush (record p { entries = remove k p.entries }) fault

  -- the loop over the operations, with the values that the reads got
  unfoldable pub batch_from :
      List (Option String)
      → FilePersister
      → List Operation
      → Fault
      → Bool × FilePersister × List (Option String)
  batch_from values p [] fault = let result = flush p fault in (result.0, result.1, values)
  batch_from values p (op_set k v ∷ ops) fault =
      batch_from values (record p { entries = insert k v p.entries }) ops fault
  batch_from values p (op_delete k ∷ ops) fault =
      batch_from values (record p { entries = remove k p.entries }) ops fault
  batch_from values p (op_get k ∷ ops) fault = batch_from (lookup k p.entries ∷ values) p ops fault
  batch_from values p (op_unknown ∷ ops) fault = (false, p, values)

  -- the values latest first
  unfoldable pub batch :
      FilePersister → List Operation → Fault → Bool × FilePersister × List (Option String)
  batch p ops fault = batch_from [] p ops fault

  -- Start of the manager twice at most; `first` and `second` are whether it starts.
  abbrev pub retried : Bool × FilePersister → Bool → Bool × Option FilePersister
  retried (false, p) second = (false, some p)
  retried (true, p) second = (second, some p)

  unfoldable pub start : Bool → Bool → Option FilePersister → Fault → Bool × Option FilePersister
  start true second per fault = (true, per)
  start false second none fault = (false, none)
  start false second (some p) fault = retried (reset p fault) second

-- the settings, with the poll interval in nanoseconds
pub record Config : Type 0 where
  pub include : List String
  pub exclude : List String
  pub poll_interval : ℤ
  pub start_at : String
  pub on_truncate : String
  pub state_path : String

abbrev pub default_poll_interval : ℤ
default_poll_interval = pos 200000000

-- `read_new` is fileconsumer.OnTruncateReadNew
unfoldable pub apply_defaults : String → Config → Config
apply_defaults read_new c = record c {
  poll_interval = if leb_ℤ c.poll_interval (pos 0) then default_poll_interval else c.poll_interval;
  start_at = if c.start_at == "" then "end" else c.start_at;
  on_truncate = if c.on_truncate == "" then read_new else c.on_truncate;
}

-- what changes the store
pub data Command : Type 0 where
  command_set : String → String → Command
  command_delete : String → Command
  command_batch : List Operation → Command
  command_reset : Command

-- calls in the order in which they got the lock, each with the answer of the file system
unfoldable pub run :
    (List (String × String) → Option String)
    → (String → Decoded)
    → FilePersister
    → List (Command × Fault)
    → FilePersister
run encode decode p [] = p
run encode decode p ((command_set k v, fault) ∷ commands) =
    run encode decode (set encode decode p k v fault).1 commands
run encode decode p ((command_delete k, fault) ∷ commands) =
    run encode decode (delete encode decode p k fault).1 commands
run encode decode p ((command_batch ops, fault) ∷ commands) =
    run encode decode (batch encode decode p ops fault).1 commands
run encode decode p ((command_reset, fault) ∷ commands) =
    run encode decode (reset encode decode p fault).1 commands
