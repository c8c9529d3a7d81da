-- ===== src/Storage/Select.antt =====
-- cpp/devices/storage_device.cpp: MODE SELECT. The parameter list is a buffer and a length, and the
-- sizes of the mode pages of the device are a parameter.
use scsi2pi.Base.{
  ℕ, zero, suc, ◌+◌, ◌-◌, ◌*◌, ◌/◌, ◌%◌, ◌^◌, true, false, not, ◌&&◌, ◌||◌, ltb, leb, ◌==◌,
  if◌then◌else◌, get_or, Option, none, some, done, thrown, stuck, ◌>>=◌, ◌>>◌, pure,
}
use scsi2pi.Scsi.{ScsiException, Asc}
use scsi2pi.Storage.{Storage, M, illegal_request, verify_block_size_change, disk_change_block_size}

abbrev pub word_at : (ℕ → ℕ) → ℕ → ℕ
word_at buf offset = buf offset * 2 ^ 8 + buf (offset + 1)

abbrev pub length_error : ScsiException
length_error = illegal_request Asc.parameter_list_length_error

abbrev pub list_error : ScsiException
list_error = illegal_request Asc.invalid_field_in_parameter_list

-- The header is longer for MODE SELECT(10), which has the operation code 0x55.
abbrev pub required_length : ℕ → ℕ
required_length command = if command == 0x55 then 8 else 4

abbrev pub descriptor_length : ℕ → (ℕ → ℕ) → ℕ
descriptor_length command buf = if command == 0x55 then word_at buf 6 else buf 3

-- The offset of the pages and the block size.
unfoldable pub evaluate_block_descriptors : ℕ → (ℕ → ℕ) → ℕ → ℕ → M (ℕ × ℕ)
unfolding verify_block_size_change
evaluate_block_descriptors command buf length size s =
    let required = required_length command in
    let descriptors = descriptor_length command buf in
    if ltb length required || ltb length (descriptors + required)
    then thrown length_error s
    else if not (descriptors == 0) && leb (required + 8) length
    then (verify_block_size_change (word_at buf (required + 6)) true >>= λ n.
          pure (descriptors + required, n))
        s
    else done (descriptors + required, size) s

-- The pages that may be changed: the first three are ignored.
unfoldable pub select_page : ℕ → (ℕ → ℕ) → ℕ → M (Unit {0})
unfolding verify_block_size_change
select_page code buf offset s =
    if code == 0x01 || code == 0x07 || code == 0x08
    then done tt s
    else if code == 0x03
    then (verify_block_size_change (word_at buf (offset + 12)) false >>= λ n. pure tt) s
    else thrown list_error s

-- The size of a page in the list.
abbrev pub size_of_page : (ℕ → ℕ) → ℕ → ℕ
size_of_page buf offset = buf (offset + 1) + 2

-- One round: `size` is the size of the page that the device has, `rest` the next round.
unfoldable pub parse_page : Option ℕ → (ℕ → ℕ) → ℕ → ℕ → M (Unit {0}) → M (Unit {0})
unfolding select_page
parse_page none buf offset length rest s = thrown list_error s
parse_page (some size) buf offset length rest s =
    if buf offset == 0
    then done tt s
    else if ltb length 2
    then thrown length_error s
    else if not (size == size_of_page buf offset) || ltb length (size_of_page buf offset)
    then thrown list_error s
    else (select_page (buf offset) buf offset >> rest) s

-- The loop over the pages; a round for each page is enough.
unfoldable pub parse_pages : (ℕ → Option ℕ) → (ℕ → ℕ) → ℕ → ℕ → ℕ → M (Unit {0})
unfolding parse_page
parse_pages pages buf zero offset length s = stuck
parse_pages pages buf (suc fuel) offset length s =
    let rest =
      parse_pages pages buf fuel (offset + size_of_page buf offset)
        (length - size_of_page buf offset) in
    if length == 0 then done tt s else parse_page (pages (buf offset)) buf offset length rest s

abbrev pub sized : ℕ → Storage → Storage
sized size s = if size == 0 then s else record s { block_size = size }

-- The pages, and the change of the block size. The fuel is the length of the list and one more.
unfoldable pub select_pages : (ℕ → Option ℕ) → (ℕ → ℕ) → ℕ → ℕ × ℕ → M (Unit {0})
unfolding parse_pages disk_change_block_size
select_pages pages buf length p s =
    let t = sized p.1 s in
    if not (get_or t.cdb 1 0 / 16 % 2 == 1)
    then done tt t
    else (parse_pages pages buf (suc length) p.0 (length - p.0) >> disk_change_block_size p.1) t

-- MODE SELECT of a disk.
unfoldable pub mode_select : (ℕ → Option ℕ) → (ℕ → ℕ) → ℕ → M (Unit {0})
unfolding evaluate_block_descriptors select_pages
mode_select pages buf length s =
    if length == 0
    then done tt s
    else (evaluate_block_descriptors (get_or s.cdb 0 0) buf length s.block_size
          >>= select_pages pages buf length)
        s
