-- ===== src/Storage/Tests.antt =====
-- An entry with its files, and the files of the system.
use vidsilo.Base.{◌≡◌, refl, true, none, some, [], ◌∷◌}
use vidsilo.Base.Numerals.{digits, decimal}
use vidsilo.Formatting.{rounded, floor_log, unit_index, tenths, unit_name, format_bytes}
use vidsilo.Storage.{
  flavors, system, StorageEntryFile, StorageEntry, storage_summary, is_system, row_title, clicked,
  pressed, opened, system_label, file_label, poll_interval,
}

storage : Unit {0}
unfolding digits decimal rounded floor_log unit_index tenths unit_name format_bytes storage_summary
    is_system row_title opened system_label file_label poll_interval
storage = tt

abbrev hd : StorageEntryFile
hd = record { label = flavors; name = some "HD"; bytes = 1024; count = 2 }

abbrev logs : StorageEntryFile
logs = record { label = system; name = some "logs"; bytes = 512; count = 1 }

abbrev a_film : StorageEntry
a_film = record { public_id = "f"; title = "A film"; total_bytes = 1024; files = hd ∷ [] }

abbrev the_system : StorageEntry
the_system = record { public_id = ""; title = ""; total_bytes = 512; files = logs ∷ [] }

summed :
    storage_summary (a_film ∷ the_system ∷ [])
    ≡ (("dashStorage", "1.5 KB") ∷ ("dashEntries", "2") ∷ ("colFiles", "3") ∷ [])
unfolding storage
summed = refl

film_opens : opened (pressed "Enter") a_film ≡ some "f"
unfolding storage
film_opens = refl

system_stays : opened clicked the_system ≡ none
unfolding storage
system_stays = refl

labels :
    (file_label (λ k. k) hd ≡ "storageSubFlavors · HD")
    × (file_label (λ k. k) logs ≡ "storageSystemLogs")
    × (row_title (λ k. k) the_system ≡ "storageSystem")
unfolding storage
labels = (refl, refl, refl)

polled : poll_interval true ≡ some 60000
unfolding storage
polled = refl
