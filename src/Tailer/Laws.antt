-- ===== src/Tailer/Laws.antt =====
-- internal/tailer/persister.go: the checkpoint file is never partial, and is read back.
use network_enforcer.Common.{
  String, List, [], ◌∷◌, ◌≡◌, ◌≢◌, refl, sym, ap, ◌∙◌, inl, inr, ◌⊎◌, Option, none, some, true,
  ◌==◌, string_eq, eq-false, if◌then◌else◌,
}
use network_enforcer.Common.Map.{lookup, insert, remove, lookup-insert}
use network_enforcer.Tailer.{
  Disk, FilePersister, Fault, no_fault, write_failed, rename_failed, contents, Decoded, decoded,
  Operation, op_set, op_delete, op_get, op_unknown, disk_of, new_file_persister, run, Command,
  command_set, command_delete, command_batch, command_reset, flush_encoded, flush, reset, get, set,
  delete, batch_from, batch,
}

module _ (encode : List (String × String) → Option String) (decode : String → Decoded) where
  -- The file is what it was at the start, or all of an encoded store.
  unfoldable pub IsWhole : Option String → Option String → Type 0
  IsWhole initial file =
      (file ≡ initial)
      ⊎ ((entries : List (String × String)) × (raw : String) × (encode entries ≡ some raw)
          × (file ≡ some raw))

  flush-IsWhole :
      (initial : Option String) (p : FilePersister) (fault : Fault)
      → IsWhole initial p.disk.file
      → IsWhole initial (flush encode decode p fault).1.disk.file
  unfolding flush IsWhole
  flush-IsWhole initial p fault h = flush_from (encode p.entries) fault refl
    where
      flush_from :
          (raw : Option String) (f : Fault)
          → encode p.entries ≡ raw
          → IsWhole initial (flush_encoded encode decode p.disk raw f).1.file
      flush_from none f e = h
      flush_from (some raw) no_fault e = inr (p.entries, raw, e, refl)
      flush_from (some raw) (write_failed partial) e = h
      flush_from (some raw) rename_failed e = h

  batch_from-IsWhole :
      (initial : Option String) (ops : List Operation) (values : List (Option String))
      (p : FilePersister) (fault : Fault)
      → IsWhole initial p.disk.file
      → IsWhole initial (batch_from encode decode values p ops fault).1.disk.file
  unfolding batch_from
  batch_from-IsWhole initial [] values p fault h = flush-IsWhole initial p fault h
  batch_from-IsWhole initial (op_set k v ∷ ops) values p fault h =
      batch_from-IsWhole initial ops values (record p { entries = insert k v p.entries }) fault h
  batch_from-IsWhole initial (op_delete k ∷ ops) values p fault h =
      batch_from-IsWhole initial ops values (record p { entries = remove k p.entries }) fault h
  batch_from-IsWhole initial (op_get k ∷ ops) values p fault h =
      batch_from-IsWhole initial ops (lookup k p.entries ∷ values) p fault h
  batch_from-IsWhole initial (op_unknown ∷ ops) values p fault h = h

  run_from :
      (initial : Option String) (commands : List (Command × Fault)) (p : FilePersister)
      → IsWhole initial p.disk.file
      → IsWhole initial (run encode decode p commands).disk.file
  unfolding run set delete batch reset
  run_from initial [] p h = h
  run_from initial ((command_set k v, fault) ∷ commands) p h =
      run_from initial commands _ (flush-IsWhole initial _ fault h)
  run_from initial ((command_delete k, fault) ∷ commands) p h =
      run_from initial commands _ (flush-IsWhole initial _ fault h)
  run_from initial ((command_batch ops, fault) ∷ commands) p h =
      run_from initial commands _ (batch_from-IsWhole initial ops [] p fault h)
  run_from initial ((command_reset, fault) ∷ commands) p h =
      run_from initial commands _ (flush-IsWhole initial _ fault h)

  -- Whatever is asked of a persister, and wherever a write or a rename fails, its checkpoint file is
  -- the one that it started with or the whole encoding of a store.
  pub run-IsWhole :
      (p : FilePersister) (commands : List (Command × Fault))
      → IsWhole p.disk.file (run encode decode p commands).disk.file
  unfolding IsWhole
  run-IsWhole p commands = run_from p.disk.file commands p (inl refl)

  flush_lem :
      (disk : Disk) (raw : Option String) (fault : Fault)
      → (flush_encoded encode decode disk raw fault).0 ≡ true
      → (text : String) × (raw ≡ some text)
        × ((flush_encoded encode decode disk raw fault).1.file ≡ some text)
  flush_lem disk none fault h = cc
  flush_lem disk (some raw) no_fault h = (raw, refl, refl)
  flush_lem disk (some raw) (write_failed partial) h = cc
  flush_lem disk (some raw) rename_failed h = cc

  -- A Set that reports no error survives a restart: where the JSON of the store is not empty and
  -- decodes to the store, the persister that is then read from the file has the new value under the
  -- key, and what the old one had under the others.
  pub set-new_file_persister :
      (p p' : FilePersister) (k v other raw : String) (fault : Fault)
      → set encode decode p k v fault ≡ (true, p')
      → encode p'.entries ≡ some raw
      → raw ≢ ""
      → decode raw ≡ decoded p'.entries
      → (reopened : FilePersister) × (p'.disk.file ≡ some raw)
        × (new_file_persister encode decode (contents raw) ≡ some reopened)
        × (get reopened other ≡ (if k == other then some v else get p other))
  unfolding set flush new_file_persister get
  set-new_file_persister p p' k v other raw fault h e n d =
      let entries : insert k v p.entries ≡ p'.entries = ap (λ r. r.1.entries) h in
      let (text, t, f) = flush_lem p.disk (encode (insert k v p.entries)) fault (ap (λ r. r.0) h) in
      let same : text ≡ raw = (let t' = rw entries at t in cc) in
      let file : p'.disk.file ≡ some raw = sym (ap (λ r. r.1.disk.file) h) ∙ f ∙ ap some same in
      (
        record { entries = p'.entries; disk = disk_of (contents raw) },
        file,
        rw (eq-false raw "" n, d) refl,
        rw (sym entries) (lookup-insert k other v p.entries),
      )
