-- ===== src/Stats/Tests.antt =====
-- Concrete runs of the statistics: a collector of four places in which three sequence numbers were
-- recorded, and an analysis of its entries.
use trading_latency_benchmar.Prelude.{
  ℕ, ◌*◌, ◌^◌, ◌≤◌, ◌<◌, ◌≡◌, refl, arith, some, List, [], ◌∷◌, drop, replicate, true,
}
use trading_latency_benchmar.Ring.Size.{next_power_of_2, next_power_of_2-least}
use trading_latency_benchmar.Stats.Entry.{
  StatsConfig, StatsEntry, StatsMode, TimestampMode, zero_entry,
}
use trading_latency_benchmar.Stats.Collector.{
  StatsCollector, success, Allocator, fresh_collector, create_stats_collector, update_matching,
  tx_change, minimal_entry, create_minimal_stats_entry, update_stats_buffer_with_tx_timestamp,
  update_stats_buffer_with_app_tx_timestamp, update_stats_buffer_with_rx_timestamps,
}
use trading_latency_benchmar.Stats.Collector.Valid.{
  IsValid, held, excess, Created, create_stats_collector-Created,
}
use trading_latency_benchmar.Stats.Collector.Run.{enqueue_all, Ran, enqueue_all-Ran}
use trading_latency_benchmar.Stats.Collector.Search.{Updated, update_matching-Updated}
use trading_latency_benchmar.Stats.Collector.Paths.{
  Ends, client_oneway-recorded, server_roundtrip-recorded,
}
use trading_latency_benchmar.Stats.Percentile.{DeltaAnalysis, zero_analysis, exact_percentiles_init}
use trading_latency_benchmar.Stats.Analysis.{
  AnalysisResult, Memory, analysis_at, initialize_analysis_result, allocate_analysis_histograms,
  allocate_analysis_structures_for_delta, process_buffer_for_analysis, count_delta,
}
use trading_latency_benchmar.Stats.Analysis.Counting.Totals.{Counted}
use trading_latency_benchmar.Stats.Analysis.Counting.{count_delta-Counted}
use trading_latency_benchmar.Stats.Analysis.Fold.{fold_delta, process_buffer-fold}
use trading_latency_benchmar.Stats.Analysis.Setup.Deltas.{
  IsAmple, IsUsable, empty_analysis, empty_analysis-IsCounting,
}
use trading_latency_benchmar.Stats.Analysis.Setup.{SetUp, initialize_analysis_result-SetUp}

-- The entry of one sequence number, with the application's and the kernel's TX timestamps.
abbrev entry : ℕ → ℕ → StatsEntry
entry seq ker_tx = record (minimal_entry seq 5000 TimestampMode.client_oneway) {
  timestamp_ns = 0 ∷ 1000 ∷ ker_tx ∷ 0 ∷ 0 ∷ 0 ∷ 0 ∷ 0 ∷ 0 ∷ 0 ∷ 0 ∷ 0 ∷ [];
}

-- A full collector whose indices have wrapped around.
abbrev entries : List StatsEntry
entries = entry 7 3500 ∷ zero_entry ∷ entry 5 1500 ∷ entry 6 2500 ∷ []

abbrev collector : StatsCollector
collector = record {
  buffer = some entries;
  head = 1;
  tail = 2;
  size_mask = 3;
  capacity = 4;
  program_mode = 1;
  total_entries = 7;
  dropped_entries = 4;
}

collector-IsValid : IsValid collector
collector-IsValid = record {
  ones = record { width = 2; wide = omega arith; ones = refl };
  entries = entries;
  allocated = refl;
  sized = refl;
  head_in = omega arith;
  tail_in = omega arith;
  capacity_is = refl;
  total_in = omega arith;
  dropped_in = omega arith;
}

abbrev config : StatsConfig
config = record { enabled = 1; buffer_size = 2; bin_width_us = 1; max_bins = 2 }

config-IsUsable : IsUsable config
config-IsUsable = record {
  some_values = ground arith;
  word = omega arith;
  some_bins = ground arith;
  some_width = ground arith;
}

abbrev memory : Memory
memory = record { values = λ _. true; histograms = λ _. true }

memory-IsAmple : IsAmple memory
memory-IsAmple = record { values_given = λ _. refl; histograms_given = λ _. refl }

enqueue_all-Ran_example :
    (t : StatsCollector) × (enqueue_all (some collector) (entry 8 4500 ∷ entry 9 5500 ∷ [])
      ≡ (success ∷ success ∷ [], some t))
    × Ran collector (entry 8 4500 ∷ entry 9 5500 ∷ []) t
enqueue_all-Ran_example = enqueue_all-Ran (entry 8 4500 ∷ entry 9 5500 ∷ []) collector-IsValid

update_matching-Updated_example :
    (t : StatsCollector) × (update_matching config
        (tx_change 99 StatsMode.client_oneway)
        6
        (some collector)
      ≡ some t)
    × Updated (tx_change 99 StatsMode.client_oneway) 6 collector t
update_matching-Updated_example =
    update_matching-Updated config (tx_change 99 StatsMode.client_oneway) 6 (ground arith)
      collector-IsValid

client_oneway-recorded_example :
    Ends
      (drop (excess collector) (held collector))
      (record (minimal_entry 8 5000 TimestampMode.client_oneway) {
        timestamp_ns = 0 ∷ 100 ∷ 300 ∷ 0 ∷ 0 ∷ 0 ∷ 0 ∷ 0 ∷ 0 ∷ 0 ∷ 0 ∷ 0 ∷ [];
      })
      (update_stats_buffer_with_tx_timestamp config 8 300 StatsMode.client_oneway (
        update_stats_buffer_with_app_tx_timestamp config 8 100 200 StatsMode.client_oneway
          (create_minimal_stats_entry config 8 5000 TimestampMode.client_oneway (some collector))))
client_oneway-recorded_example =
    client_oneway-recorded config (ground arith) 8 5000 100 200 300 collector-IsValid (omega arith)

server_roundtrip-recorded_example :
    Ends
      (drop (excess collector) (held collector))
      (record (minimal_entry 8 5000 TimestampMode.server_roundtrip) {
        timestamp_ns = 0 ∷ 0 ∷ 0 ∷ 0 ∷ 0 ∷ 0 ∷ 0 ∷ 10 ∷ 20 ∷ 30 ∷ 50 ∷ 60 ∷ [];
      })
      (update_stats_buffer_with_tx_timestamp config 8 60 StatsMode.server_roundtrip (
        update_stats_buffer_with_app_tx_timestamp config 8 50 0 StatsMode.server_roundtrip (
          update_stats_buffer_with_rx_timestamps config 8 10 20 30 40 StatsMode.server_roundtrip (
            create_minimal_stats_entry config 8 5000 TimestampMode.server_roundtrip
              (some collector)))))
server_roundtrip-recorded_example =
    server_roundtrip-recorded config (ground arith) 8 5000 10 20 30 40 50 60 collector-IsValid
      (omega arith)

abbrev allocator : Allocator
allocator = record {
  control_aligned = true;
  control_plain = true;
  buffer_aligned = true;
  buffer_plain = true;
}

three_becomes_four :
    create_stats_collector allocator 3 StatsMode.client_oneway
    ≡ some (fresh_collector 4 StatsMode.client_oneway)
unfolding create_stats_collector next_power_of_2
three_becomes_four = refl

create_stats_collector-Created_example : Created 3 (fresh_collector 4 StatsMode.client_oneway)
create_stats_collector-Created_example =
    create_stats_collector-Created allocator 3 StatsMode.client_oneway (omega arith)
      three_becomes_four

-- Three values, of which the second is the least.
abbrev three_values : DeltaAnalysis
three_values = record zero_analysis {
  packet_count = 3;
  delta_values = some (9 ∷ 4 ∷ 6 ∷ 0 ∷ []);
  delta_capacity = 4;
}

count_delta-Counted_example :
    Counted config 1700 (empty_analysis config) (count_delta config 1700 (empty_analysis config))
count_delta-Counted_example =
    count_delta-Counted 1700 (empty_analysis-IsCounting config config-IsUsable).0 (omega arith)

initialize_analysis_result-SetUp_example :
    ((initialize_analysis_result memory StatsMode.server_roundtrip config).0 ≡ success)
    × SetUp StatsMode.server_roundtrip config
        (initialize_analysis_result memory StatsMode.server_roundtrip config).1
initialize_analysis_result-SetUp_example =
    initialize_analysis_result-SetUp memory StatsMode.server_roundtrip config memory-IsAmple tt
      config-IsUsable

abbrev ready : AnalysisResult
ready = record {
  deltas = empty_analysis config ∷ replicate 11 zero_analysis;
  active_deltas = replicate 12 0;
  delta_count = 1;
  mode = StatsMode.client_oneway;
  config = config;
}

allocate-ready : allocate_analysis_histograms memory ready ≡ (success, ready)
unfolding allocate_analysis_histograms allocate_analysis_structures_for_delta exact_percentiles_init
allocate-ready = refl

process_buffer-fold_example :
    analysis_at (process_buffer_for_analysis memory collector ready) 0
    ≡ fold_delta config 0 (held collector) (empty_analysis config)
process_buffer-fold_example =
    process_buffer-fold memory ready ready 0 collector-IsValid (ground arith) allocate-ready
      (omega arith) refl

next_power_of_2-least_example :
    (v : ℕ) × (next_power_of_2 1000 ≡ 2 ^ v) × (v ≤ 31) × (1000 ≤ 2 ^ v) × (2 ^ v < 2 * 1000)
next_power_of_2-least_example = next_power_of_2-least 1000 (omega arith) (omega arith)
