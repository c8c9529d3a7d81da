-- ===== src/Controller/Transfer.antt =====
-- cpp/controllers/abstract_controller.h and cpp/controllers/abstract_controller.cpp: how far the
-- current transfer has come. The shared buffer grows to the current length. The lengths are ints
-- that the callers keep at 0 or above, but for the current length -1 that FORMAT UNIT passes to
-- DataOut; the controller's model handles that case at the caller.
use scsi2pi.Base.{
  ℕ, ◌+◌, ◌-◌, List, ◌++◌, ltb, leb, if◌then◌else◌, length, replicate, Option, some, none, drop,
}

pub record Transfer : Type 0 where
  pub buffer : List ℕ
  pub offset : ℕ
  pub remaining_length : ℕ
  pub current_length : ℕ
  pub chunk_size : ℕ

-- vector::resize to a larger size appends zeros.
abbrev pub grow : ℕ → List ℕ → List ℕ
grow n buf = if ltb (length buf) n then buf ++ replicate (n - length buf) 0 else buf

unfoldable pub set_current_length : ℕ → Transfer → Transfer
set_current_length len t = record t { buffer = grow len t.buffer; current_length = len }

unfoldable pub set_transfer_size : ℕ → ℕ → Transfer → Transfer
set_transfer_size len size t = record t {
  remaining_length = len;
  chunk_size = if ltb len size then len else size;
}

-- `none` is the failed assertion that the rest is not negative.
unfoldable pub update_transfer_length : ℕ → Transfer → Option Transfer
update_transfer_length len t =
    if leb len t.remaining_length
    then some (record t {
      remaining_length = t.remaining_length - len;
      chunk_size =
          if ltb (t.remaining_length - len) t.chunk_size
          then t.remaining_length - len
          else t.chunk_size;
    })
    else none

unfoldable pub update_offset_and_length : Transfer → Transfer
update_offset_and_length t = record t { offset = t.offset + t.current_length; current_length = 0 }

unfoldable pub reset_offset : Transfer → Transfer
reset_offset t = record t { offset = 0 }

-- The bytes are written over the front of the buffer.
abbrev pub overwrite : List ℕ → List ℕ → List ℕ
overwrite bs buf = bs ++ drop (length bs) buf

unfoldable pub copy_to_buffer : List ℕ → Transfer → Transfer
unfolding set_current_length
copy_to_buffer bs t =
    let u = set_current_length (length bs) t in record u { buffer = overwrite bs u.buffer }
