-- ===== src/Tape/Records/Limits.antt =====
-- The size limit of the image, and what the drive reports about record lengths.
use scsi2pi.Base.{
  ℕ, ◌+◌, ◌≤◌, ◌<◌, ◌≡◌, arith, inl, inr, not_ltb, lt→ltb, ltb→lt, Bool-cases, ◌>>◌, get_or, done,
  thrown, if◌then◌else◌, ltb,
}
use scsi2pi.Base.Int.{pos, pos-+ℤ, pos_laws}
use scsi2pi.Scsi.{ScsiException, SenseKey, Asc}
use scsi2pi.File.{ImageFile, write, IsSound}
use scsi2pi.Simh.{SimhClass, to_little_endian, meta_data_size}
use scsi2pi.Tape.{Tape, placed, scsi_exception}
use scsi2pi.Tape.Records.{check_for_overflow, write_simh_meta_data}

abbrev pub overflow : ScsiException
overflow = scsi_exception SenseKey.volume_overflow Asc.no_additional_sense_information

pub check_for_overflow_fits :
    (t : Tape) (p n : ℕ)
    → p + n ≤ t.max_file_size
    → check_for_overflow (pos n) (placed p t) ≡ done tt (placed p t)
unfolding check_for_overflow
check_for_overflow_fits t p n h = simp (pos_laws, not_ltb _ _ h)

check_for_overflow_exceeds :
    (t : Tape) (p n : ℕ)
    → t.max_file_size < p + n
    → check_for_overflow (pos n) (placed p t)
      ≡ thrown overflow
          (record t { tape_position = pos p; write_error_count = t.write_error_count + 1 })
unfolding check_for_overflow
check_for_overflow_exceeds t p n h = simp (pos_laws, lt→ltb _ _ h)

abbrev pub meta_data_written : SimhClass → ℕ → ℕ → ImageFile → ImageFile
meta_data_written cls value p f =
    write f p 4 (λ i. get_or (to_little_endian (record { cls = cls; value = value })) i 0)

pub write_simh_meta_data_fits :
    (t : Tape) (p : ℕ) (cls : SimhClass) (value : ℕ)
    → IsSound t.file
    → p + (p + 4) ≤ t.max_file_size
    → write_simh_meta_data cls value (placed p t)
      ≡ done meta_data_size
          (record t { tape_position = pos p; file = meta_data_written cls value p t.file })
unfolding write_simh_meta_data
write_simh_meta_data_fits t p cls value sound h =
    rw (pos-+ℤ p 4, check_for_overflow_fits t p (p + 4) h, ◌>>◌, sound.writes p 4)

-- At position p meta data are written if 2 * p + 4 is within the limit, and refused with a volume
-- overflow if it is not: CheckForOverflow adds the position to an argument that contains it already.
-- The system refuses no transfer.
pub write_simh_meta_data_limit :
    (t : Tape) (p : ℕ) (cls : SimhClass) (value : ℕ)
    → IsSound t.file
    → write_simh_meta_data cls value (placed p t) ≡ (
        if ltb t.max_file_size (p + (p + 4))
        then thrown overflow
            (record t { tape_position = pos p; write_error_count = t.write_error_count + 1 })
        else done meta_data_size
            (record t { tape_position = pos p; file = meta_data_written cls value p t.file }))
unfolding write_simh_meta_data
write_simh_meta_data_limit t p cls value sound =
    elim (Bool-cases (ltb t.max_file_size (p + (p + 4)))) [
      | inl over ↦
          rw (over, pos-+ℤ p 4, check_for_overflow_exceeds t p (p + 4) (ltb→lt _ _ over), ◌>>◌)
      | inr fits ↦ rw fits (write_simh_meta_data_fits t p cls value sound (ground arith))
    ]
