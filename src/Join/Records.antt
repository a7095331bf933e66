-- ===== src/Join/Records.antt =====
-- The records of the join, from src/timestamp_csvjoin.c: `detect_file_type`, `safe_strncpy` and
-- `populate_timestamps_from_file`.
pub mod Populate
use Prim.Native.Nat.{bit_or}
use trading_latency_benchmar.Prelude.{
  ℕ, ◌-◌, ◌%◌, ◌^◌, Bool, true, false, ◌&&◌, ◌||◌, Option, none, some, List, [], ◌∷◌, length,
  get_or, set, take, ◌==◌, leb, if◌then◌else◌, Bytes, codes,
}
use trading_latency_benchmar.Join.Line.{cut_line_end, read_line}
use trading_latency_benchmar.Join.Sequences.{
  Outcome, returned, failed, JoinRecord, empty_record, find_record_by_seq,
}

-- `file_type_t`
pub data FileType : Type 0 where
  client_oneway_main client_oneway_tx client_roundtrip_main client_roundtrip_tx : FileType
  server_oneway_main server_roundtrip_main server_roundtrip_tx unknown : FileType

pub starts_with : Bytes → Bytes → Bool
starts_with [] s = true
starts_with (c ∷ p) [] = false
starts_with (c ∷ p) (d ∷ s) = c == d && starts_with p s

-- strstr(s, p) != NULL
pub has_substring : Bytes → Bytes → Bool
has_substring p [] = starts_with p []
has_substring p (c ∷ s) = starts_with p (c ∷ s) || has_substring p s

-- A file that can be opened is the lines that `fgets` gives.
unfoldable pub detect_file_type : Option (List Bytes) → FileType
unfolding has_substring starts_with cut_line_end
detect_file_type none = FileType.unknown
detect_file_type (some []) = FileType.unknown
detect_file_type (some (header ∷ lines)) =
    let line = cut_line_end header in
    if has_substring
      (codes
        "clt_src_ip,clt_src_port,seq_num,clt_app_tx_tsc_ts,clt_app_tx_ts,clt_hw_rx_ts,clt_ker_rx_ts,clt_app_rx_tsc_ts,clt_app_rx_ts")
      line
    then FileType.client_roundtrip_main
    else if has_substring
        (codes
          "clt_src_ip,clt_src_port,seq_num,svr_hw_rx_ts,svr_ker_rx_ts,svr_app_rx_ts,svr_app_tx_ts")
        line
    then FileType.server_roundtrip_main
    else if has_substring
        (codes "clt_src_ip,clt_src_port,seq_num,svr_hw_rx_ts,svr_ker_rx_ts,svr_app_rx_ts") line
    then FileType.server_oneway_main
    else if has_substring (codes "clt_src_ip,clt_src_port,seq_num,clt_app_tx_ts") line
    then FileType.client_oneway_main
    else if has_substring (codes "clt_src_ip,clt_src_port,seq_num,clt_ker_tx_ts") line
    then FileType.client_oneway_tx
    else if has_substring (codes "clt_src_ip,clt_src_port,seq_num,svr_ker_tx_ts") line
    then FileType.server_roundtrip_tx
    else FileType.unknown

-- What `safe_strncpy(dest, src, n)` leaves in `dest`.
abbrev pub safe_strncpy : Bytes → ℕ → Bytes
safe_strncpy src n = take (n - 1) src

-- A field that is copied to a place of the timestamps, with the bit for the place; `field_mask` is a
-- uint16_t.
unfoldable pub store_field : ℕ → ℕ → List Bytes → JoinRecord → JoinRecord
store_field place n fields r = record r {
  timestamps = set r.timestamps place (safe_strncpy (get_or fields n []) 32);
  field_mask = bit_or r.field_mask (2 ^ place) % 2 ^ 16;
}

-- The switch of `populate_timestamps_from_file`.
unfoldable pub store_fields : FileType → List Bytes → JoinRecord → JoinRecord
unfolding store_field
store_fields FileType.client_oneway_main fields r =
    if leb 4 (length fields) then store_field 1 3 fields r else r
store_fields FileType.client_oneway_tx fields r =
    if leb 4 (length fields) then store_field 2 3 fields r else r
store_fields FileType.client_roundtrip_tx fields r =
    if leb 4 (length fields) then store_field 2 3 fields r else r
store_fields FileType.client_roundtrip_main fields r =
    if leb 9 (length fields)
    then store_field 11 8 fields (
        store_field 10 7 fields (
          store_field 9 6 fields
            (store_field 8 5 fields (store_field 1 4 fields (store_field 0 3 fields r)))))
    else r
store_fields FileType.server_oneway_main fields r =
    if leb 6 (length fields)
    then store_field 5 5 fields (store_field 4 4 fields (store_field 3 3 fields r))
    else r
store_fields FileType.server_roundtrip_main fields r =
    if leb 7 (length fields)
    then store_field 6 6 fields
        (store_field 5 5 fields (store_field 4 4 fields (store_field 3 3 fields r)))
    else r
store_fields FileType.server_roundtrip_tx fields r =
    if leb 4 (length fields) then store_field 7 3 fields r else r
store_fields FileType.unknown fields r = r

-- The body of the loop of `populate_timestamps_from_file` for a line that was read.
unfoldable pub populate_found :
    FileType → Option (ℕ × List Bytes) → List JoinRecord → List JoinRecord
populate_found file_type none records = records
populate_found file_type (some found) records = elim (find_record_by_seq records (found.0)) [
  | none ↦ records
  | some record_idx ↦
      set records record_idx
        (store_fields file_type (found.1) (get_or records record_idx (empty_record 0)))
]

-- Its loop over the lines.
unfoldable pub populate_lines :
    FileType → Bytes → ℕ → List Bytes → List JoinRecord → List JoinRecord
unfolding populate_found
populate_lines file_type target_ip target_port [] records = records
populate_lines file_type target_ip target_port (line ∷ rest) records =
    populate_lines file_type target_ip target_port rest
      (populate_found file_type (read_line target_ip target_port line) records)

unfoldable pub populate_timestamps_from_file :
    Option (List Bytes) → FileType → Bytes → ℕ → List JoinRecord → Outcome × List JoinRecord
unfolding populate_lines
populate_timestamps_from_file none file_type target_ip target_port records = (failed, records)
populate_timestamps_from_file (some []) file_type target_ip target_port records =
    (returned, records)
populate_timestamps_from_file (some (header ∷ lines)) file_type target_ip target_port records =
    (returned, populate_lines file_type target_ip target_port lines records)
