-- ===== src/Examples/Disk.antt =====
-- The file with one firmware image on a disk in memory.
use libjcat.Examples.Storage.{one_item, one_item-IsStorableFile, no_file, clock}
use libjcat.File.Disk.{import_file-export_file}
use libjcat.File.RoundTrip.{restored_items}
use libjcat.File.Streams.{import_file, export_file}
use libjcat.Json.Tree.{trees, trees_laws, plain, plain_laws}
use libjcat.Prelude.{Bytes, codes, ok, [], ◌≡◌, refl}
use libjcat.System.Memory.{Disk, memory, memory_laws}

abbrev pub empty_disk : Disk
empty_disk = record { files = []; output = []; kept = [] }

abbrev pub path : Bytes
path = codes "firmware.jcat"

-- The disk with the file.
abbrev pub written : Disk
unfolding export_file
written = (export_file memory trees plain one_item path 0 empty_disk).1

export_file-written : export_file memory trees plain one_item path 0 empty_disk ≡ (ok tt, written)
unfolding export_file written
export_file-written = refl

import_file-export_file_example :
    (u : Disk) × (import_file memory trees plain clock path no_file written
      ≡ ((ok tt, record one_item { items = restored_items clock 0 0 one_item.items }), u))
import_file-export_file_example =
    import_file-export_file memory trees plain memory_laws trees_laws plain_laws clock one_item
      no_file path 0 path empty_disk empty_disk written one_item-IsStorableFile export_file-written
      refl refl
