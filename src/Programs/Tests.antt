-- ===== src/Programs/Tests.antt =====
-- Both programs on a disk in memory.
use nickdb.Base.{◌≡◌, none, [], pos}
use nickdb.Constants.{status_ok}
use nickdb.Posix.Disk.{Disk, disk, disk_documented, disk_reliable, disk_paths, disk_reliable_paths}
use nickdb.Proc.{ret}
use nickdb.Programs.{fileiotest, pageiotest}
use nickdb.Programs.Pass.{fileiotest-passes, pageiotest-passes}

abbrev empty_disk : Disk
empty_disk = record { content = none; path = [] }

fileiotest-passes_example :
    (w' : Disk) × (fileiotest empty_disk ≡ ret status_ok w') × (w'.content ≡ none)
fileiotest-passes_example =
    fileiotest-passes disk_documented disk_paths disk_reliable disk_reliable_paths empty_disk
      (λ e. cc e)

pageiotest-passes_example :
    (w' : Disk) × (pageiotest empty_disk ≡ ret (pos 0) w') × (w'.content ≡ none)
pageiotest-passes_example =
    pageiotest-passes disk_documented disk_paths disk_reliable disk_reliable_paths empty_disk
      (λ e. cc e)
