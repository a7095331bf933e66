-- ===== src/Csv/Writer.antt =====
-- The writer thread of the CSV log and what is around it: `csv_buffer_create`, `csv_format_batch` and
-- `csv_writer_thread` of src/timestamp_common.c.
pub mod Length
pub mod Lines
pub mod Complete
use trading_latency_benchmar.Prelude.{
  ℕ, zero, suc, ◌+◌, ◌-◌, ◌*◌, ◌/◌, ◌%◌, ◌^◌, Bool, true, false, ◌||◌, ◌&&◌, not, Option, none,
  some, List, [], ◌∷◌, ◌++◌, length, get_or, take, replicate, ltb, ◌==◌, if◌then◌else◌, Bytes,
  codes,
}
use trading_latency_benchmar.Ring.Size.{is_pow2}
use trading_latency_benchmar.Csv.{
  CsvType, CsvEntry, CsvRingBuffer, no_entry, get_csv_header, csv_dequeue_batch,
}
use trading_latency_benchmar.Csv.Text.{digits, print_timestamp}

-- The places of the timestamps that a line of a type has.
abbrev pub printed_places : CsvType → List ℕ
printed_places CsvType.client_main_oneway = 1 ∷ []
printed_places CsvType.client_main_roundtrip = 0 ∷ 1 ∷ 3 ∷ 4 ∷ 5 ∷ 6 ∷ []
printed_places CsvType.server_main_oneway = 7 ∷ 8 ∷ 9 ∷ []
printed_places CsvType.server_main_roundtrip = 7 ∷ 8 ∷ 9 ∷ 10 ∷ []
printed_places CsvType.client_tx = 2 ∷ []
printed_places CsvType.server_tx = 11 ∷ []
printed_places (CsvType.other v) = []

-- ",%llu.%09llu" for each of the places.
unfoldable pub print_timestamps : CsvEntry → List ℕ → Bytes
print_timestamps entry [] = []
print_timestamps entry (i ∷ places) =
    b',' ∷ print_timestamp (get_or entry.timestamp_ns i 0) ++ print_timestamps entry places

-- "%s,%u,%u", the timestamps and the end of the line.
unfoldable pub print_fields : CsvEntry → List ℕ → Bytes
unfolding print_timestamps
print_fields entry places =
    entry.src_ip
    ++ (b','
        ∷ (digits 10 entry.src_port
            ++ (b',' ∷ (digits 10 entry.seq_num ++ (print_timestamps entry places ++ b'\n' ∷ [])))))

unfoldable pub print_line : CsvType → CsvEntry → Bytes
unfolding print_fields
print_line (CsvType.other v) entry = codes "invalid_csv_type\n"
print_line CsvType.client_main_oneway entry =
    print_fields entry (printed_places CsvType.client_main_oneway)
print_line CsvType.client_main_roundtrip entry =
    print_fields entry (printed_places CsvType.client_main_roundtrip)
print_line CsvType.server_main_oneway entry =
    print_fields entry (printed_places CsvType.server_main_oneway)
print_line CsvType.server_main_roundtrip entry =
    print_fields entry (printed_places CsvType.server_main_roundtrip)
print_line CsvType.client_tx entry = print_fields entry (printed_places CsvType.client_tx)
print_line CsvType.server_tx entry = print_fields entry (printed_places CsvType.server_tx)

-- The loop from an offset on, for a buffer of at least 256 bytes. A line that does not fit is cut, as
-- snprintf does, and the loop ends after it.
unfoldable pub format_from : ℕ → CsvType → ℕ → List CsvEntry → Bytes
unfolding print_line
format_from buffer_size csv_type offset [] = []
format_from buffer_size csv_type offset (entry ∷ batch) =
    let line = print_line csv_type entry in
    let rest = format_from buffer_size csv_type (offset + length line) batch in
    if ltb offset (buffer_size - 256) then take (buffer_size - offset - 1) line ++ rest else []

-- The text in the buffer before the '\0'.
unfoldable pub csv_format_batch : List CsvEntry → ℕ → CsvType → Bytes
unfolding format_from
csv_format_batch batch buffer_size csv_type = format_from buffer_size csv_type 0 batch

-- The ring buffer with what only the writer uses, and the file.
pub record Writer : Type 0 where
  pub buffer : CsvRingBuffer
  pub batch_size : ℕ
  pub write_buffer_size : ℕ
  pub csv_type : CsvType
  pub file : Bytes

-- What the system does for `csv_buffer_create`: the three allocations, the file, the write of the header
-- and the thread.
pub record Creation : Type 0 where
  pub control : Bool
  pub entries : Bool
  pub text : Bool
  pub file : Bool
  pub header : Bool
  pub thread : Bool

unfoldable pub csv_buffer_create : Creation → ℕ → CsvType → ℕ → Option Writer
csv_buffer_create system size csv_type batch_size =
    if size == 0
      || not (is_pow2 size)
      || not system.control
      || not system.entries
      || not system.text
      || not system.file
      || not system.thread
    then none
    else some (record {
      buffer = record {
        entries = replicate size no_entry;
        head = 0;
        tail = 0;
        size_mask = size - 1;
      };
      batch_size = batch_size;
      write_buffer_size = batch_size * 256 % 2 ^ 32;
      csv_type = csv_type;
      file = if system.header then get_csv_header csv_type else [];
    })

-- One round of the loop of the thread; the flag tells whether the write succeeds. The flush at the end is
-- such a round too.
unfoldable pub write_batch : Bool → Writer → Writer
unfolding csv_format_batch
write_batch written w =
    let (batch, buffer) = csv_dequeue_batch w.batch_size w.buffer in
    let text = csv_format_batch batch w.write_buffer_size w.csv_type in
    record w { buffer = buffer; file = if written then w.file ++ text else w.file }
