-- ===== src/Stats/Collector/Paths.antt =====
-- The orders in which the programs fill one statistics entry: `create_minimal_stats_entry` first,
-- then the updates of run_client_oneway, of the round-trip client and of the server.
use trading_latency_benchmar.Prelude.{
  ℕ, ◌<◌, ◌≡◌, ◌≢◌, refl, ◌∙◌, ap, arith, Option, some, List, [], ◌∷◌, ◌++◌, drop, drop-append,
}
use trading_latency_benchmar.Stats.Entry.{StatsEntry, StatsConfig, StatsMode, TimestampMode}
use trading_latency_benchmar.Stats.Collector.{
  StatsCollector, update_matching, tx_change, app_tx_change, rx_change,
  update_stats_buffer_with_tx_timestamp, update_stats_buffer_with_app_tx_timestamp,
  update_stats_buffer_with_rx_timestamps, create_minimal_stats_entry, minimal_entry,
}
use trading_latency_benchmar.Stats.Collector.Valid.{IsValid, held, excess, stats_enqueue-Enqueued}
use trading_latency_benchmar.Stats.Collector.Search.{
  update_matching-Updated, change_newest-hit, change_newest,
}

-- The collector holds `older` and then `e`, and is valid.
pub record Ends (older : List StatsEntry) (e : StatsEntry) (r : Option StatsCollector)
    : Type 0 where
  pub state : StatsCollector
  pub is_some : r ≡ some state
  pub valid : IsValid state
  pub holds : held state ≡ older ++ e ∷ []

module _ (config : StatsConfig) (on : config.enabled ≢ 0) where
  -- A minimal entry becomes the newest held one.
  create-Ends :
      (seq port : ℕ) (kind : TimestampMode) {s : StatsCollector}
      → IsValid s
      → 0 < s.size_mask
      → Ends
          (drop (excess s) (held s))
          (minimal_entry seq port kind)
          (create_minimal_stats_entry config seq port kind (some s))
  unfolding create_minimal_stats_entry
  create-Ends seq port kind {s} v pos =
      let (t, enq, made) = stats_enqueue-Enqueued v (minimal_entry seq port kind) in
      record {
        state = t;
        is_some = rw enq (ground arith);
        valid = made.valid;
        holds =
            made.holds
            ∙ drop-append (excess s) (held s) (minimal_entry seq port kind ∷ []) (omega arith);
      }

  -- An update of the newest entry's sequence number changes that entry.
  update-Ends :
      (change : StatsEntry → StatsEntry) (seq : ℕ) {older : List StatsEntry} {e : StatsEntry}
      {r : Option StatsCollector}
      → e.seq_num ≡ seq
      → Ends older e r
      → Ends older (change e) (update_matching config change seq r)
  update-Ends change seq {older} {e} {r} same ends =
      let (t, done, new) = update_matching-Updated config change seq on ends.valid in
      record {
        state = t;
        is_some = rw ends.is_some done;
        valid = new.valid;
        holds =
            new.holds
            ∙ (ap (change_newest change seq) ends.holds
                ∙ change_newest-hit change seq older e (ground arith));
      }

  -- The one-way client: after the entry is created, the application's and then the kernel's TX
  -- timestamp arrive, and the newest entry holds these two at places 1 and 2 and no other timestamp;
  -- the older entries are those held before, less the oldest if the buffer was full.
  pub client_oneway-recorded :
      (seq port app_tx tsc_tx ker_tx : ℕ) {s : StatsCollector}
      → IsValid s
      → 0 < s.size_mask
      → Ends
          (drop (excess s) (held s))
          (record (minimal_entry seq port TimestampMode.client_oneway) {
            timestamp_ns = 0 ∷ app_tx ∷ ker_tx ∷ 0 ∷ 0 ∷ 0 ∷ 0 ∷ 0 ∷ 0 ∷ 0 ∷ 0 ∷ 0 ∷ [];
          })
          (update_stats_buffer_with_tx_timestamp config seq ker_tx StatsMode.client_oneway (
            update_stats_buffer_with_app_tx_timestamp config seq app_tx tsc_tx
              StatsMode.client_oneway
              (create_minimal_stats_entry config seq port TimestampMode.client_oneway (some s))))
  unfolding update_stats_buffer_with_tx_timestamp update_stats_buffer_with_app_tx_timestamp
      tx_change app_tx_change
  client_oneway-recorded seq port app_tx tsc_tx ker_tx v pos = update-Ends _ seq refl (
      update-Ends (app_tx_change app_tx tsc_tx StatsMode.client_oneway) seq refl
        (create-Ends seq port TimestampMode.client_oneway v pos))

  -- The round-trip server: the entry is created on receipt and given the three RX timestamps, then the
  -- application's TX timestamp, then the kernel's. The newest entry holds these five at places 7 to 11
  -- and no other timestamp.
  pub server_roundtrip-recorded :
      (seq port hw ker app tsc app_tx ker_tx : ℕ) {s : StatsCollector}
      → IsValid s
      → 0 < s.size_mask
      → Ends
          (drop (excess s) (held s))
          (record (minimal_entry seq port TimestampMode.server_roundtrip) {
            timestamp_ns = 0 ∷ 0 ∷ 0 ∷ 0 ∷ 0 ∷ 0 ∷ 0 ∷ hw ∷ ker ∷ app ∷ app_tx ∷ ker_tx ∷ [];
          })
          (update_stats_buffer_with_tx_timestamp config seq ker_tx StatsMode.server_roundtrip (
            update_stats_buffer_with_app_tx_timestamp config seq app_tx 0 StatsMode.server_roundtrip
              (update_stats_buffer_with_rx_timestamps config seq hw ker app tsc
                StatsMode.server_roundtrip
                (create_minimal_stats_entry config seq port TimestampMode.server_roundtrip
                  (some s)))))
  unfolding update_stats_buffer_with_tx_timestamp update_stats_buffer_with_app_tx_timestamp
      update_stats_buffer_with_rx_timestamps tx_change app_tx_change rx_change
  server_roundtrip-recorded seq port hw ker app tsc app_tx ker_tx v pos = update-Ends _ seq refl (
      update-Ends (app_tx_change app_tx 0 StatsMode.server_roundtrip) seq refl (
        update-Ends (rx_change hw ker app tsc StatsMode.server_roundtrip) seq refl
          (create-Ends seq port TimestampMode.server_roundtrip v pos)))
