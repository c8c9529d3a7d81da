-- ===== src/Tape/Commands/Filemarks/Single.antt =====
-- What writing one filemark leaves in the image.
use scsi2pi.Base.{
  ℕ, zero, suc, ◌+◌, ◌≤◌, ◌≡◌, refl, ◌∙◌, arith, inl, inr, >>=-done, false, Bool-cases, ◌>>◌,
  get_or, done, if◌then◌else◌, ltb,
}
use scsi2pi.Base.Int.{pos, pos-+ℤ, pos_laws}
use scsi2pi.File.{ImageFile, IsSound, write-IsSound}
use scsi2pi.Simh.{SimhClass, SimhMetaData, to_little_endian, class_value}
use scsi2pi.Tape.{Tape, ObjectType, placed}
use scsi2pi.Tape.Records.{
  write_simh_meta_data, write_meta_data, write_object, write_end_of_data, end_of_data_value,
}
use scsi2pi.Tape.Records.Limits.{meta_data_written, write_simh_meta_data_fits}

abbrev pub tape_mark : SimhMetaData
tape_mark = record { cls = SimhClass.tape_mark_good_data_record; value = 0 }

pub tape_mark_bytes : (k : ℕ) → get_or (to_little_endian tape_mark) k 0 ≡ 0
unfolding to_little_endian class_value
tape_mark_bytes zero = refl
tape_mark_bytes (suc zero) = refl
tape_mark_bytes (suc (suc zero)) = refl
tape_mark_bytes (suc (suc (suc zero))) = refl
tape_mark_bytes (suc (suc (suc (suc k)))) = refl

-- The image with the end-of-data object at q, where it is kept.
abbrev pub with_end : ℕ → Tape → ImageFile
with_end q t =
    if ltb t.file_size (q + 4)
    then t.file
    else meta_data_written SimhClass.private_marker end_of_data_value q t.file

write_end_of_data_lem :
    (t : Tape) (q : ℕ)
    → IsSound t.file
    → q + (q + 4) ≤ t.max_file_size
    → write_end_of_data (placed q t)
      ≡ done tt (record t { tape_position = pos q; file = with_end q t })
unfolding write_end_of_data
write_end_of_data_lem t q sound fits = elim (Bool-cases (ltb t.file_size (q + 4))) [
  | inl short ↦ simp (pos_laws, short)
  | inr long ↦
      simp (pos_laws, long)
        (>>=-done (write_simh_meta_data SimhClass.private_marker end_of_data_value)
          (λ n u. done tt u)
          (write_simh_meta_data_fits t q SimhClass.private_marker end_of_data_value sound fits))
]

-- The image with a filemark at p.
abbrev pub marked : ℕ → Tape → Tape
marked p t = record t {
  tape_position = pos (p + 4);
  file = meta_data_written SimhClass.tape_mark_good_data_record 0 p t.file;
}

write_object_lem :
    (t : Tape) (p : ℕ)
    → IsSound t.file
    → p + (p + 4) ≤ t.max_file_size
    → write_object 0 (placed p t) ≡ write_end_of_data (marked p t)
unfolding write_object
write_object_lem t p sound fits =
    >>=-done (write_simh_meta_data SimhClass.tape_mark_good_data_record 0) _
      (write_simh_meta_data_fits t p SimhClass.tape_mark_good_data_record 0 sound fits)
    ∙ rw (◌>>◌, pos-+ℤ p 4) refl

simh_lem :
    (t : Tape) (p : ℕ)
    → t.tar_file ≡ false
    → write_meta_data ObjectType.filemark 0 (placed p t) ≡ write_object 0 (placed p t)
unfolding write_meta_data
simh_lem t p simh = rw simh refl

pub write_filemark_lem :
    (t : Tape) (p : ℕ)
    → IsSound t.file
    → t.tar_file ≡ false
    → (p + 4) + (p + 8) ≤ t.max_file_size
    → write_meta_data ObjectType.filemark 0 (placed p t)
      ≡ done tt (record t { tape_position = pos (p + 4); file = with_end (p + 4) (marked p t) })
write_filemark_lem t p sound simh fits =
    simh_lem t p simh
    ∙ write_object_lem t p sound (omega arith)
    ∙ write_end_of_data_lem (marked p t) (p + 4) (write-IsSound t.file p 4 _ sound) (omega arith)
