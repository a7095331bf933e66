-- ===== src/Csv.antt =====
-- The CSV log of the client and the server: `csv_entry_t` and the functions that fill it,
-- `get_csv_header`, and the ring buffer between the network thread and the writer thread
-- (include/timestamp_common.h, src/timestamp_common.c).
pub mod Queue
pub mod Logged
pub mod Writer
pub mod Header
pub mod Text
mod Tests
use trading_latency_benchmar.Prelude.{
  ℕ, zero, suc, Option, List, [], ◌∷◌, set, get_or, take, replicate, ◌==◌, if◌then◌else◌, Bytes,
  codes,
}
use trading_latency_benchmar.Ring.Index.{next_index}

-- `csv_type_t`; a variable of the type may hold another value, as `other`.
pub data CsvType : Type 0 where
  client_main_oneway client_main_roundtrip client_tx server_main_oneway server_main_roundtrip
        server_tx :
      CsvType
  other : ℕ → CsvType

-- `csv_entry_t`; `timestamp_ns` has twelve places, `src_ip` is the text before its '\0'.
pub record CsvEntry : Type 0 where
  pub seq_num : ℕ
  pub timestamp_ns : List ℕ
  pub src_ip : Bytes
  pub src_port : ℕ
  pub csv_type : CsvType

-- What the helpers share: the entry as they fill it, with no timestamp yet.
abbrev pub blank_csv : CsvType → ℕ → Bytes → ℕ → CsvEntry
blank_csv type seq_num src_ip src_port = record {
  seq_num = seq_num;
  timestamp_ns = replicate 12 0;
  src_ip = take 15 src_ip;
  src_port = src_port;
  csv_type = type;
}

-- csv->timestamp_ns[i] = ns
abbrev pub put_timestamp : ℕ → ℕ → CsvEntry → CsvEntry
put_timestamp i ns csv = record csv { timestamp_ns = set csv.timestamp_ns i ns }

abbrev pub create_csv_client_oneway_tx : ℕ → Bytes → ℕ → ℕ → CsvEntry
create_csv_client_oneway_tx seq_num src_ip src_port kernel_tx_ts_ns =
    put_timestamp 2 kernel_tx_ts_ns (blank_csv CsvType.client_tx seq_num src_ip src_port)

abbrev pub create_csv_client_oneway_main : ℕ → Bytes → ℕ → ℕ → CsvEntry
create_csv_client_oneway_main seq_num src_ip src_port app_tx_ts_ns =
    put_timestamp 1 app_tx_ts_ns (blank_csv CsvType.client_main_oneway seq_num src_ip src_port)

abbrev pub create_csv_client_roundtrip_rx : ℕ → Bytes → ℕ → ℕ → ℕ → ℕ → ℕ → ℕ → ℕ → CsvEntry
create_csv_client_roundtrip_rx seq_num src_ip src_port tx_tsc_ns app_tx_ns hw_rx_ns ker_rx_ns
      rx_tsc_ns app_rx_ns =
    put_timestamp 6 app_rx_ns (
      put_timestamp 5 rx_tsc_ns (
        put_timestamp 4 ker_rx_ns (
          put_timestamp 3 hw_rx_ns (
            put_timestamp 1 app_tx_ns (
              put_timestamp 0 tx_tsc_ns
                (blank_csv CsvType.client_main_roundtrip seq_num src_ip src_port))))))

abbrev pub create_csv_server_oneway_main : ℕ → Bytes → ℕ → ℕ → ℕ → ℕ → CsvEntry
create_csv_server_oneway_main seq_num src_ip src_port hw_rx_ns ker_rx_ns app_rx_ns =
    put_timestamp 9 app_rx_ns (
      put_timestamp 8 ker_rx_ns
        (put_timestamp 7 hw_rx_ns (blank_csv CsvType.server_main_oneway seq_num src_ip src_port)))

abbrev pub create_csv_server_roundtrip_main : ℕ → Bytes → ℕ → ℕ → ℕ → ℕ → ℕ → CsvEntry
create_csv_server_roundtrip_main seq_num src_ip src_port hw_rx_ns ker_rx_ns app_rx_ns app_tx_ns =
    put_timestamp 10 app_tx_ns (
      put_timestamp 9 app_rx_ns (
        put_timestamp 8 ker_rx_ns (
          put_timestamp 7 hw_rx_ns
            (blank_csv CsvType.server_main_roundtrip seq_num src_ip src_port))))

abbrev pub create_csv_server_tx : ℕ → Bytes → ℕ → ℕ → CsvEntry
create_csv_server_tx seq_num src_ip src_port ker_tx_ts_ns =
    put_timestamp 11 ker_tx_ts_ns (blank_csv CsvType.server_tx seq_num src_ip src_port)

unfoldable pub get_csv_header : CsvType → Bytes
get_csv_header CsvType.client_main_oneway = codes "clt_src_ip,clt_src_port,seq_num,clt_app_tx_ts\n"
get_csv_header CsvType.client_main_roundtrip =
    codes
      "clt_src_ip,clt_src_port,seq_num,clt_app_tx_tsc_ts,clt_app_tx_ts,clt_hw_rx_ts,clt_ker_rx_ts,clt_app_rx_tsc_ts,clt_app_rx_ts\n"
get_csv_header CsvType.client_tx = codes "clt_src_ip,clt_src_port,seq_num,clt_ker_tx_ts\n"
get_csv_header CsvType.server_main_oneway =
    codes "clt_src_ip,clt_src_port,seq_num,svr_hw_rx_ts,svr_ker_rx_ts,svr_app_rx_ts\n"
get_csv_header CsvType.server_main_roundtrip =
    codes "clt_src_ip,clt_src_port,seq_num,svr_hw_rx_ts,svr_ker_rx_ts,svr_app_rx_ts,svr_app_tx_ts\n"
get_csv_header CsvType.server_tx = codes "clt_src_ip,clt_src_port,seq_num,svr_ker_tx_ts\n"
get_csv_header (CsvType.other v) = codes "invalid_csv_type\n"

-- `csv_ring_buffer_t`, less the file, the thread and the buffer for the text.
pub record CsvRingBuffer : Type 0 where
  pub entries : List CsvEntry
  pub head : ℕ
  pub tail : ℕ
  pub size_mask : ℕ

-- What a read outside of the array gives here; the invariant rules it out.
abbrev pub no_entry : CsvEntry
no_entry = blank_csv CsvType.client_main_oneway 0 [] 0

-- Whether `csv_enqueue_fast` returned 0 or -1.
pub data Pushed : Type 0 where
  accepted dropped : Pushed

unfoldable pub csv_enqueue_fast : CsvRingBuffer → CsvEntry → Pushed × CsvRingBuffer
csv_enqueue_fast buffer entry =
    let next_head = next_index buffer.size_mask buffer.head in
    if next_head == buffer.tail then (dropped, buffer) else (
      accepted,
      record buffer { entries = set buffer.entries buffer.head entry; head = next_head },
    )

-- The batch, and the buffer after it.
unfoldable pub csv_dequeue_batch : ℕ → CsvRingBuffer → List CsvEntry × CsvRingBuffer
csv_dequeue_batch zero buffer = ([], buffer)
csv_dequeue_batch (suc max_entries) buffer =
    let (further, emptied) =
      csv_dequeue_batch max_entries
        (record buffer { tail = next_index buffer.size_mask buffer.tail }) in
    if buffer.tail == buffer.head
    then ([], buffer)
    else (get_or buffer.entries buffer.tail no_entry ∷ further, emptied)
