-- ===== src/Disk/Sizes.antt =====
-- READ CAPACITY reports the last sector and the sector size.
use scsi2pi.Base.{
  ℕ, ◌+◌, ◌-◌, ◌*◌, ◌/◌, ◌%◌, ◌^◌, ◌<◌, ◌≤◌, ◌≡◌, refl, ap, ◌∙◌, arith, ltb, if◌then◌else◌, not_==,
  done, thrown, >>-done, ◌>>◌,
}
use scsi2pi.Disk.{Disk, Next, check_ready, scsi_exception}
use scsi2pi.Scsi.{SenseKey, Asc}
use scsi2pi.Disk.Capacity.{put32, read_capacity_10, minimum, check_medium}
use native.Mathlib.Nat.{mod-eq_of_lt}

-- The big-endian number at an offset of the buffer.
abbrev pub number_at : (ℕ → ℕ) → ℕ → ℕ
number_at buf offset =
    buf offset * 2 ^ 24 + buf (offset + 1) * 2 ^ 16 + buf (offset + 2) * 2 ^ 8 + buf (offset + 3)

module _ (offset value : ℕ) (buf : ℕ → ℕ) where
  first_byte : put32 offset value buf offset ≡ value / 2 ^ 24 % 2 ^ 8
  first_byte = ground arith

  second_byte : put32 offset value buf (offset + 1) ≡ value / 2 ^ 16 % 2 ^ 8
  second_byte = ground arith

  third_byte : put32 offset value buf (offset + 2) ≡ value / 2 ^ 8 % 2 ^ 8
  third_byte = ground arith

  fourth_byte : put32 offset value buf (offset + 3) ≡ value % 2 ^ 8
  fourth_byte = ground arith

  number_at-put32 : number_at (put32 offset value buf) offset ≡ value % 2 ^ 32
  number_at-put32 = rw (first_byte, second_byte, third_byte, fourth_byte) (omega arith)

  untouched : (p : ℕ) → p < offset → put32 offset value buf p ≡ buf p
  untouched p before = ground arith

  number_at_before :
      (other : ℕ)
      → other + 4 ≤ offset
      → number_at (put32 offset value buf) other ≡ number_at buf other
  number_at_before other apart =
      rw
        (
          untouched other (omega arith),
          untouched (other + 1) (omega arith),
          untouched (other + 2) (omega arith),
          untouched (other + 3) (omega arith),
        )
        refl

-- On a ready disk with sectors READ CAPACITY(10) transfers the number of the last sector, or 2 ^ 32 - 1
-- if that is larger, and the block size.
pub read_capacity_10-number_at :
    {S : Type 0} (d : Disk S)
    → check_ready d ≡ done tt d
    → 0 < d.block_count
    → d.block_size < 2 ^ 32
    → (e : Disk S) × (read_capacity_10 d ≡ done (Next.data_in 8) e)
      × (number_at e.buffer 0 ≡ minimum (d.block_count - 1) 0xffffffff)
      × (number_at e.buffer 4 ≡ d.block_size)
unfolding read_capacity_10
read_capacity_10-number_at {S = S} d ready some_blocks small = (
  reported,
  >>-done check_ready (check_medium >> λ e. done (Next.data_in 8) (report e)) {s = d} ready
      ∙ >>-done check_medium (λ e. done (Next.data_in 8) (report e)) {s = d} has_medium,
  number_at_before 4 d.block_size (put32 0 last d.buffer) 0 (omega arith)
      ∙ number_at-put32 0 last d.buffer
      ∙ last_is,
  number_at-put32 4 d.block_size (put32 0 last d.buffer) ∙ mod-eq_of_lt small,
)
  where
    last : ℕ
    last = if ltb 0xffffffff (d.block_count - 1) then 0xffffffff else d.block_count - 1

    report : Disk S → Disk S
    report e = record e {
      buffer = put32 4 e.block_size (
          put32 0 (if ltb 0xffffffff (e.block_count - 1) then 0xffffffff else e.block_count - 1)
            e.buffer);
    }

    reported : Disk S
    reported = report d

    has_medium : check_medium d ≡ done tt d
    has_medium =
        ap
          (λ z.
            if z
            then thrown (scsi_exception SenseKey.illegal_request Asc.medium_not_present) d
            else done tt d)
          (not_== d.block_count 0 (λ z. omega arith))

    last_is : last % 2 ^ 32 ≡ minimum (d.block_count - 1) 0xffffffff
    last_is = mod-eq_of_lt (ground arith)
