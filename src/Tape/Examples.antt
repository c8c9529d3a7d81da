-- ===== src/Tape/Examples.antt =====
-- A tape drive whose image of 16 bytes holds filemarks only.
use scsi2pi.Base.{
  ℕ, ◌*◌, false, refl, some, ◌+◌, ◌<◌, ◌≡◌, ◌≢◌, arith, false, replicate, set, done, thrown, stuck,
}
use scsi2pi.Base.Int.{pos}
use scsi2pi.Scsi.{StatusCode}
use scsi2pi.Simh.{SimhClass, read_meta_data}
use scsi2pi.Simh.Examples.{test_file, test_file-IsSound}
use scsi2pi.Primary.Examples.{at_filemark}
use scsi2pi.Tape.{Next, Tape, ObjectType, placed}
use scsi2pi.Tape.Objects.{find_next_object, find_object}
use scsi2pi.Tape.Objects.Forward.{find_next_object_terminates}
use scsi2pi.Tape.Objects.Located.{find_object_terminates}
use scsi2pi.Tape.Records.{write_simh_meta_data}
use scsi2pi.Tape.Records.Limits.{write_simh_meta_data_limit, overflow}
use scsi2pi.Tape.Commands.Filemarks.{write_filemarks}
use scsi2pi.Tape.Commands.Filemarks.Written.{filemarks_written}
use scsi2pi.Tape.Commands.Filemarks.Single.{tape_mark}
use scsi2pi.Tape.Commands.Erase.{erase, gap_byte}
use scsi2pi.Tape.Commands.Erasing.{erase_within, erase_behind, erased}

abbrev drive : Tape
drive = record {
  primary = at_filemark;
  transfer = record {
    buffer = replicate 32 0;
    offset = 0;
    remaining_length = 0;
    current_length = 0;
    chunk_size = 0;
  };
  cdb = set (replicate 16 0) 1 2;
  status = StatusCode.good;
  block_size = 512;
  file = test_file;
  current_meta_data = record { cls = SimhClass.tape_mark_good_data_record; value = 0 };
  tape_position = pos 0;
  initial = false;
  fixed = false;
  block_size_for_descriptor = 512;
  blocks_read = 0;
  record_start = pos 0;
  record_length = 4;
  object_location = 0;
  byte_count = 8;
  remaining_count = 8;
  file_size = 16;
  max_file_size = 16;
  tar_file = false;
  expl = false;
  read_error_count = 0;
  write_error_count = 0;
}

find_next_object_terminates_example :
    find_next_object 5 ObjectType.filemark (pos 2) false (placed 0 drive) ≢ stuck
find_next_object_terminates_example =
    find_next_object_terminates 5 0 2 ObjectType.filemark false drive (omega arith) (omega arith)

find_object_terminates_example : find_object 5 3 (placed 0 drive) ≢ stuck
find_object_terminates_example = find_object_terminates 5 0 3 drive (omega arith) (omega arith)

write_simh_meta_data_limit_example :
    write_simh_meta_data SimhClass.tape_mark_good_data_record 0 (placed 8 drive)
    ≡ thrown overflow (record drive { tape_position = pos 8; write_error_count = 1 })
write_simh_meta_data_limit_example =
    write_simh_meta_data_limit drive 8 SimhClass.tape_mark_good_data_record 0 test_file-IsSound

erase_within_example :
    (out : Tape) × (erase 1 (placed 4 drive) ≡ done tt out)
    × (out.tape_position ≡ pos (4 + erased 12))
    × (16 < 4 + erased 12 + 4)
    × ((i : ℕ) → i < erased 12 → out.file.at (4 + i) ≡ gap_byte i)
    × ((j : ℕ) → j < 4 → j < 16 → out.file.at j ≡ test_file.at j)
erase_within_example =
    erase_within 1 drive 4 test_file-IsSound (omega arith) (omega arith) (omega arith)

erase_behind_example : erase 1000 (placed 20 drive) ≡ stuck
erase_behind_example =
    erase_behind 1000 drive 20 test_file-IsSound (omega arith) (omega arith) (omega arith)

-- The same with a larger limit, ready, and with the CDB of WRITE FILEMARKS(6) for two of them.
abbrev roomy : Tape
roomy = record drive {
  max_file_size = 64;
  cdb = set (replicate 16 0) 4 2;
  primary = record drive.primary {
    device = record drive.primary.device { reset = false; attn = false };
  };
}

filemarks_written_example :
    (u : Tape) × (write_filemarks 1 false (placed 4 roomy) ≡ done Next.status u)
    × (u.tape_position ≡ pos 12)
    × ((i : ℕ) → i < 2 → read_meta_data u.file (4 + 4 * i) ≡ some tape_mark)
    × ((j : ℕ) → j < 4 → u.file.at j ≡ test_file.at j)
    × (u.object_location ≡ 0)
filemarks_written_example =
    filemarks_written 1 4 roomy test_file-IsSound refl refl refl refl refl refl (omega arith)
      (omega arith)
