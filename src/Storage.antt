-- ===== src/Storage.antt =====
-- web/app/admin/storage/page.tsx: the numbers, the rows with their labels, and what opens an entry. `t` is an
-- argument, of a key.
mod Tests
use Prim.Native.String.{◌++◌}
use vidsilo.Base.{
  ℕ, ◌+◌, Bool, true, false, ◌||◌, Option, none, some, List, [], ◌∷◌, String, if◌then◌else◌, length,
  is_blank, or_else, ◌==◌, Dict, lookup,
}
use vidsilo.Base.Numerals.{decimal}
use vidsilo.Formatting.{format_bytes}

pub data FileLabel : Type 0 where
  source poster flavors subtitles other system : FileLabel

pub record StorageEntryFile : Type 0 where
  pub label : FileLabel
  pub name : Option String
  pub bytes : ℕ
  pub count : ℕ

pub record StorageEntry : Type 0 where
  pub public_id : String
  pub title : String
  pub total_bytes : ℕ
  pub files : List StorageEntryFile

-- The files of an entry.
abbrev pub file_count : List StorageEntryFile → ℕ
file_count [] = 0
file_count (f ∷ fs) = f.count + file_count fs

-- `totalFiles`
abbrev pub total_files : List StorageEntry → ℕ
total_files [] = 0
total_files (e ∷ es) = file_count e.files + total_files es

-- `totalBytes`
abbrev pub total_bytes : List StorageEntry → ℕ
total_bytes [] = 0
total_bytes (e ∷ es) = e.total_bytes + total_bytes es

-- The strip above the table, by the keys of its labels.
unfoldable pub storage_summary : List StorageEntry → List (String × String)
unfolding format_bytes decimal
storage_summary es =
    ("dashStorage", format_bytes (some (total_bytes es)))
    ∷ ("dashEntries", decimal (length es))
    ∷ ("colFiles", decimal (total_files es))
    ∷ []

-- `isSystem`
unfoldable pub is_system : StorageEntry → Bool
is_system e = is_blank e.public_id

unfoldable pub row_title : (String → String) → StorageEntry → String
unfolding is_system
row_title t e =
    if is_system e then t "storageSystem" else if is_blank e.title then t "untitled" else e.title

-- What happens to the row of an entry.
pub data RowEvent : Type 0 where
  clicked : RowEvent
  pressed : (key : String) → RowEvent

-- The entry that is opened, if one is.
unfoldable pub opened : RowEvent → StorageEntry → Option String
unfolding is_system
opened clicked e = if is_system e then none else some e.public_id
opened (pressed key) e =
    if is_system e
    then none
    else if (key == "Enter") || (key == " ")
    then some e.public_id
    else none

abbrev system_sub_labels : Dict String
system_sub_labels =
    ("uploads", "storageSystemUploads")
    ∷ ("logs", "storageSystemLogs")
    ∷ ("cache", "storageSystemCache")
    ∷ ("other", "storageSubOther")
    ∷ []

abbrev pub sub_row_label : FileLabel → String
sub_row_label source = "storageSubSource"
sub_row_label poster = "storageSubPoster"
sub_row_label flavors = "storageSubFlavors"
sub_row_label subtitles = "storageSubSubtitles"
sub_row_label other = "storageSubOther"
sub_row_label system = "storageSystem"

-- The label of a system row: by its category, where it has one.
unfoldable pub system_label : Option String → String
unfolding lookup
system_label none = "storageSystem"
system_label (some name) =
    if is_blank name
    then "storageSystem"
    else or_else (lookup name system_sub_labels) "storageSubOther"

-- The label of the row of a kind of files; a flavor without a name reads "undefined".
unfoldable pub file_label : (String → String) → StorageEntryFile → String
unfolding system_label
file_label t f = elim f.label [
  | flavors ↦ t "storageSubFlavors" ++ (" · " ++ or_else f.name "undefined")
  | system ↦ t (system_label f.name)
  | l ↦ t (sub_row_label l)
]

-- How often the files are asked for again, in milliseconds, or none.
unfoldable pub poll_interval : (is_visible : Bool) → Option ℕ
poll_interval is_visible = if is_visible then some 60000 else none
