-- ===== src/Stats/Collector.antt =====
-- The statistics collector: `stats_collector_t` with `create_stats_collector`, `stats_enqueue`,
-- `get_buffer_count`, `buffer_has_data` and the three searches that complete an entry
-- (include/timestamp_common.h, src/timestamp_common.c).
pub mod Valid
pub mod Run
pub mod Search
pub mod Paths
use Prim.Native.Nat.{bit_and}
use trading_latency_benchmar.Prelude.{
  ℕ, zero, suc, ◌+◌, ◌-◌, ◌*◌, ◌%◌, ◌^◌, Bool, true, false, ◌&&◌, ◌||◌, not, Option, none, some,
  List, [], ◌∷◌, set, get_or, replicate, ◌==◌, ltb, if◌then◌else◌,
}
use trading_latency_benchmar.Ring.Index.{next_index, index_distance}
use trading_latency_benchmar.Ring.Size.{next_power_of_2}
use trading_latency_benchmar.Stats.Entry.{
  StatsMode, TimestampMode, StatsEntry, StatsConfig, zero_entry, set_timestamp, stats_mode_code,
  timestamp_mode_code, get_timestamp_mask_for_mode,
}

-- `stats_collector_t`; the buffer pointer may be NULL, which is `none`.
pub record StatsCollector : Type 0 where
  pub buffer : Option (List StatsEntry)
  pub head : ℕ
  pub tail : ℕ
  pub size_mask : ℕ
  pub capacity : ℕ
  pub program_mode : ℕ
  pub total_entries : ℕ
  pub dropped_entries : ℕ

-- What an `int` result of 0 or -1 says.
pub data Status : Type 0 where
  success failure : Status

-- Which of the allocations that the operating system is asked for succeed.
pub record Allocator : Type 0 where
  pub control_aligned : Bool
  pub control_plain : Bool
  pub buffer_aligned : Bool
  pub buffer_plain : Bool

-- The control structure as it is set up; either way of allocation leaves the buffer zeroed.
abbrev pub fresh_collector : ℕ → StatsMode → StatsCollector
fresh_collector actual_size mode = record {
  buffer = some (replicate actual_size zero_entry);
  head = 0;
  tail = 0;
  size_mask = (actual_size + 2 ^ 32 - 1) % 2 ^ 32;
  capacity = actual_size;
  program_mode = stats_mode_code mode;
  total_entries = 0;
  dropped_entries = 0;
}

unfoldable pub create_stats_collector : Allocator → ℕ → StatsMode → Option StatsCollector
create_stats_collector alloc buffer_size mode =
    let actual_size = next_power_of_2 buffer_size in
    if buffer_size == 0
    then none
    else if not (alloc.control_aligned || alloc.control_plain)
    then none
    else if actual_size == 0
    then none
    else if not (alloc.buffer_aligned || alloc.buffer_plain)
    then none
    else some (fresh_collector actual_size mode)

-- "Buffer full - overwrite oldest entry": the tail moves on and the drop is counted.
unfoldable pub make_room : StatsCollector → ℕ → StatsCollector
make_room stats next_head =
    if next_head == stats.tail
    then record stats {
      tail = next_index stats.size_mask stats.tail;
      dropped_entries = (stats.dropped_entries + 1) % 2 ^ 64;
    }
    else stats

-- The body of `stats_enqueue` behind its NULL checks. A `set` outside of the buffer changes
-- nothing; the invariant rules it out.
unfoldable pub store_entry : StatsCollector → List StatsEntry → StatsEntry → StatsCollector
unfolding make_room
store_entry stats buf entry =
    let next_head = next_index stats.size_mask stats.head in
    let roomy = make_room stats next_head in
    record roomy {
      buffer = some (set buf stats.head entry);
      head = next_head;
      total_entries = (stats.total_entries + 1) % 2 ^ 64;
    }

-- `stats_enqueue`: the pointers may be NULL.
unfoldable pub stats_enqueue :
    Option StatsCollector → Option StatsEntry → Status × Option StatsCollector
stats_enqueue none entry = (failure, none)
stats_enqueue (some stats) none = (failure, some stats)
stats_enqueue (some stats) (some entry) = elim (stats.buffer) [
  | none ↦ (failure, some stats)
  | some buf ↦ (success, some (store_entry stats buf entry))
]

unfoldable pub get_buffer_count : Option StatsCollector → ℕ
get_buffer_count none = 0
get_buffer_count (some stats) = index_distance stats.size_mask stats.head stats.tail

unfoldable pub buffer_has_data : Option StatsCollector → Bool
buffer_has_data stats = ltb 0 (get_buffer_count stats)

-- The loop of the three searches: `rounds` places from `(head - 1 - i) & mask` on, downwards; the
-- first entry with the sequence number is changed and ends the search.
unfoldable pub search_backwards :
    (StatsEntry → StatsEntry) → ℕ → ℕ → ℕ → List StatsEntry → ℕ → ℕ → List StatsEntry
search_backwards change seq mask head buf i zero = buf
search_backwards change seq mask head buf i (suc rounds) =
    let index = bit_and ((head + 2 * 2 ^ 32 - 1 - i) % 2 ^ 32) mask in
    let entry = get_or buf index zero_entry in
    let rest = search_backwards change seq mask head buf (i + 1) rounds in
    if entry.seq_num == seq then set buf index (change entry) else rest

-- What the three update functions share: the checks, the loads of the indices and the search.
unfoldable pub update_matching :
    StatsConfig → (StatsEntry → StatsEntry) → ℕ → Option StatsCollector → Option StatsCollector
update_matching config change seq none = none
update_matching config change seq (some stats) =
    if config.enabled == 0 then some stats else elim (stats.buffer) [
      | none ↦ some stats
      | some buf ↦
          let count = index_distance stats.size_mask stats.head stats.tail in
          some (record stats {
            buffer = some (search_backwards change seq stats.size_mask stats.head buf 0 count);
          })
    ]

-- The switch of `update_stats_buffer_with_tx_timestamp`.
unfoldable pub tx_change : ℕ → StatsMode → StatsEntry → StatsEntry
tx_change ker_tx StatsMode.client_oneway e = set_timestamp 2 ker_tx e
tx_change ker_tx StatsMode.client_roundtrip e = set_timestamp 2 ker_tx e
tx_change ker_tx StatsMode.server_oneway e = e
tx_change ker_tx StatsMode.server_roundtrip e = set_timestamp 11 ker_tx e
tx_change ker_tx (StatsMode.other v) e = e

-- `if (tsc > 0) entry->timestamp_ns[i] = tsc;`
abbrev pub set_tsc : ℕ → ℕ → StatsEntry → StatsEntry
set_tsc i tsc e = if ltb 0 tsc then set_timestamp i tsc e else e

-- The switch of `update_stats_buffer_with_app_tx_timestamp`.
unfoldable pub app_tx_change : ℕ → ℕ → StatsMode → StatsEntry → StatsEntry
app_tx_change app_tx tsc_tx StatsMode.client_oneway e = set_timestamp 1 app_tx e
app_tx_change app_tx tsc_tx StatsMode.client_roundtrip e =
    set_timestamp 1 app_tx (set_tsc 0 tsc_tx e)
app_tx_change app_tx tsc_tx StatsMode.server_oneway e = e
app_tx_change app_tx tsc_tx StatsMode.server_roundtrip e = set_timestamp 10 app_tx e
app_tx_change app_tx tsc_tx (StatsMode.other v) e = e

-- The switch of `update_stats_buffer_with_rx_timestamps`.
unfoldable pub rx_change : ℕ → ℕ → ℕ → ℕ → StatsMode → StatsEntry → StatsEntry
rx_change hw ker app tsc StatsMode.client_oneway e = e
rx_change hw ker app tsc StatsMode.client_roundtrip e =
    set_timestamp 6 app (set_tsc 5 tsc (set_timestamp 4 ker (set_timestamp 3 hw e)))
rx_change hw ker app tsc StatsMode.server_oneway e =
    set_timestamp 9 app (set_timestamp 8 ker (set_timestamp 7 hw e))
rx_change hw ker app tsc StatsMode.server_roundtrip e =
    set_timestamp 9 app (set_timestamp 8 ker (set_timestamp 7 hw e))
rx_change hw ker app tsc (StatsMode.other v) e = e

-- `stats_config` and `global_stats_collector` are globals, here the first and last argument.
unfoldable pub update_stats_buffer_with_tx_timestamp :
    StatsConfig → ℕ → ℕ → StatsMode → Option StatsCollector → Option StatsCollector
update_stats_buffer_with_tx_timestamp config seq ker_tx mode =
    update_matching config (tx_change ker_tx mode) seq

unfoldable pub update_stats_buffer_with_app_tx_timestamp :
    StatsConfig → ℕ → ℕ → ℕ → StatsMode → Option StatsCollector → Option StatsCollector
update_stats_buffer_with_app_tx_timestamp config seq app_tx tsc_tx mode =
    update_matching config (app_tx_change app_tx tsc_tx mode) seq

unfoldable pub update_stats_buffer_with_rx_timestamps :
    StatsConfig → ℕ → ℕ → ℕ → ℕ → ℕ → StatsMode → Option StatsCollector → Option StatsCollector
update_stats_buffer_with_rx_timestamps config seq hw ker app tsc mode =
    update_matching config (rx_change hw ker app tsc mode) seq

abbrev pub minimal_entry : ℕ → ℕ → TimestampMode → StatsEntry
minimal_entry seq src_port entry_type = record {
  seq_num = seq;
  timestamp_ns = replicate 12 0;
  src_port = src_port;
  entry_type = timestamp_mode_code entry_type;
  timestamp_mask = get_timestamp_mask_for_mode entry_type;
  padding = replicate 4 0;
}

-- `src_ip` and `mode` are not used by the code.
unfoldable pub create_minimal_stats_entry :
    StatsConfig → ℕ → ℕ → TimestampMode → Option StatsCollector → Option StatsCollector
create_minimal_stats_entry config seq src_port entry_type none = none
create_minimal_stats_entry config seq src_port entry_type (some stats) =
    if config.enabled == 0
    then some stats
    else (stats_enqueue (some stats) (some (minimal_entry seq src_port entry_type))).1
