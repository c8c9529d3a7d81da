-- ===== src/Simh/Examples.antt =====
-- Records written to a small file.
use scsi2pi.Base.{◌+◌, ◌≡◌, refl, arith, true, false, some, [], ◌∷◌, take}
use scsi2pi.File.{ImageFile, IsSound, bytes}
use scsi2pi.Simh.{
  SimhClass, SimhMetaData, from_little_endian, to_little_endian, read_meta_data, write_good_data,
  pad, end_of_medium,
}
use scsi2pi.Simh.Codec.{from_little_endian-to_little_endian, to_little_endian-from_little_endian}
use scsi2pi.Simh.Records.{write_good_data_record, write_good_data_odd}

abbrev pub test_file : ImageFile
test_file = record {
  size = 16;
  at = λ i. 0;
  read_error = λ o n. false;
  write_error = λ o n. false;
  write_lost = λ o n. false;
}

pub test_file-IsSound : IsSound test_file
test_file-IsSound = record { reads = λ o n. refl; writes = λ o n. refl }

abbrev marker : SimhMetaData
marker = record { cls = SimhClass.private_marker; value = 0x03533250 }

from_little_endian-to_little_endian_example : from_little_endian (to_little_endian marker) ≡ marker
from_little_endian-to_little_endian_example =
    from_little_endian-to_little_endian marker (omega arith)

to_little_endian-from_little_endian_example :
    to_little_endian (from_little_endian (0x50 ∷ 0x32 ∷ 0x53 ∷ 0x73 ∷ []))
    ≡ 0x50 ∷ 0x32 ∷ 0x53 ∷ 0x73 ∷ []
to_little_endian-from_little_endian_example =
    to_little_endian-from_little_endian 0x50 0x32 0x53 0x73 (omega arith) (omega arith)
      (omega arith) (omega arith)

abbrev good : SimhMetaData
good = record { cls = SimhClass.tape_mark_good_data_record; value = 3 }

write_good_data_record_example :
    (out : ImageFile) × (write_good_data test_file 4 (1 ∷ 2 ∷ 3 ∷ []) 3 ≡ (out, true))
    × (read_meta_data out 4 ≡ some good)
    × (bytes out 8 3 ≡ take 3 (1 ∷ 2 ∷ 3 ∷ []))
    × (read_meta_data out 11 ≡ some good)
write_good_data_record_example =
    write_good_data_record test_file 4 (1 ∷ 2 ∷ 3 ∷ []) 3 test_file-IsSound (omega arith)
      (omega arith)

write_good_data_odd_example :
    read_meta_data (write_good_data test_file 16 (1 ∷ 2 ∷ 3 ∷ []) 3).0 (16 + 4 + pad 3)
    ≡ some (record { cls = SimhClass.reserverd_marker; value = end_of_medium })
write_good_data_odd_example =
    write_good_data_odd test_file (1 ∷ 2 ∷ 3 ∷ []) 3 test_file-IsSound refl
