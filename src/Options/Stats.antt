-- ===== src/Options/Stats.antt =====
-- What `parse_stats_argument` of src/timestamp_server.c and src/timestamp_client.c accepts.
use trading_latency_benchmar.Prelude.{
  ℕ, ◌≤◌, ◌≡◌, refl, ◌∙◌, arith, Bool, true, false, Option, none, some, List, [], ◌∷◌, take, drop,
  if◌then◌else◌, Bytes, codes, str_eq, Bool-cases, inl, inr,
}
use trading_latency_benchmar.Stats.Entry.{StatsConfig}
use trading_latency_benchmar.Options.Tokens.{strtok_all}
use trading_latency_benchmar.Options.{
  strtoul, scale_size, within, parse_buffer_size, parse_parameter, parse_parameters,
  parse_stats_argument,
}

-- A configuration with the limits that the messages of the parser state.
pub record IsInRange (c : StatsConfig) : Type 0 where
  pub size_low : 10000 ≤ c.buffer_size
  pub size_high : c.buffer_size ≤ 10000000
  pub width_low : 1 ≤ c.bin_width_us
  pub width_high : c.bin_width_us ≤ 1000
  pub bins_low : 10 ≤ c.max_bins
  pub bins_high : c.max_bins ≤ 10000

-- What a part of the parser gives: no configuration, or one in range that is as much enabled.
abbrev pub Keeps : StatsConfig → Option StatsConfig → Type 0
Keeps c none = Unit
Keeps c (some d) = IsInRange d × (d.enabled ≡ c.enabled)

parse_buffer_size-Keeps :
    (token : Bytes) (c : StatsConfig) → IsInRange c → Keeps c (parse_buffer_size token c)
unfolding parse_buffer_size
parse_buffer_size-Keeps token c v = sized (scale_size (strtoul token).0 (strtoul token).1)
  where
    sized :
        (o : Option ℕ)
        → Keeps c (elim o [
          | none ↦ none
          | some size ↦
              if within 10000 10000000 size then some (record c { buffer_size = size }) else none
        ])
    sized none = tt
    sized (some size) = elim (Bool-cases (within 10000 10000000 size)) [
      | inl fits ↦ rw fits (
        record {
          size_low = ground (arith, fits);
          size_high = ground (arith, fits);
          width_low = v.width_low;
          width_high = v.width_high;
          bins_low = v.bins_low;
          bins_high = v.bins_high;
        },
        refl,
      )
      | inr fails ↦ rw fails tt
    ]

parse_parameter-Keeps :
    (token : Bytes) (c : StatsConfig) → IsInRange c → Keeps c (parse_parameter token c)
unfolding parse_parameter
parse_parameter-Keeps token c v =
    let number = (strtoul (drop 3 token)).0 in
    elim (Bool-cases (str_eq (take 3 token) (codes "bw="))) [
      | inl is_width ↦ elim (Bool-cases (within 1 1000 number)) [
        | inl fits ↦
            rw (is_width, fits)
              (
                record {
                  size_low = v.size_low;
                  size_high = v.size_high;
                  width_low = ground (arith, fits);
                  width_high = ground (arith, fits);
                  bins_low = v.bins_low;
                  bins_high = v.bins_high;
                },
                refl,
              )
        | inr fails ↦ rw (is_width, fails) tt
      ]
      | inr no_width ↦ elim (Bool-cases (str_eq (take 3 token) (codes "bn="))) [
        | inl is_bins ↦ elim (Bool-cases (within 10 10000 number)) [
          | inl fits ↦
              rw (no_width, is_bins, fits)
                (
                  record {
                    size_low = v.size_low;
                    size_high = v.size_high;
                    width_low = v.width_low;
                    width_high = v.width_high;
                    bins_low = ground (arith, fits);
                    bins_high = ground (arith, fits);
                  },
                  refl,
                )
          | inr fails ↦ rw (no_width, is_bins, fails) tt
        ]
        | inr no_bins ↦ rw (no_width, no_bins) tt
      ]
    ]

bind-Keeps :
    (c : StatsConfig) (o : Option StatsConfig) (next : StatsConfig → Option StatsConfig)
    → Keeps c o
    → ((d : StatsConfig) → IsInRange d → Keeps d (next d))
    → Keeps c (elim o [ none ↦ none | some d ↦ next d ])
bind-Keeps c none next v step = tt
bind-Keeps c (some d) next (v, same) step = then_kept (next d) (step d v)
  where
    then_kept : (o : Option StatsConfig) → Keeps d o → Keeps c o
    then_kept none k = tt
    then_kept (some e) (w, same') = (w, same' ∙ same)

parse_parameters-Keeps :
    (tokens : List Bytes) (c : StatsConfig) → IsInRange c → Keeps c (parse_parameters tokens c)
unfolding parse_parameters
parse_parameters-Keeps [] c v = (v, refl)
parse_parameters-Keeps (token ∷ tokens) c v =
    bind-Keeps c (parse_parameter token c) (parse_parameters tokens)
      (parse_parameter-Keeps token c v) (parse_parameters-Keeps tokens)

-- Whatever the argument, `parse_stats_argument` ends with an error or leaves a configuration that was in
-- range in range: 10000 to 10000000 entries, bins of 1 to 1000 microseconds, 10 to 10000 bins.
pub parse_stats_argument-Keeps :
    (memory : Bool) (arg : Bytes) (c : StatsConfig)
    → IsInRange c
    → Keeps c (parse_stats_argument memory arg c)
unfolding parse_stats_argument
parse_stats_argument-Keeps false arg c v = tt
parse_stats_argument-Keeps true arg c v = parsed (strtok_all b',' arg)
  where
    parsed :
        (tokens : List Bytes)
        → Keeps c (elim tokens [
          | [] ↦ some c
          | token ∷ tokens ↦ elim (parse_buffer_size token c) [
            | none ↦ none
            | some next ↦ parse_parameters tokens next
          ]
        ])
    parsed [] = (v, refl)
    parsed (token ∷ tokens) =
        bind-Keeps c (parse_buffer_size token c) (parse_parameters tokens)
          (parse_buffer_size-Keeps token c v) (parse_parameters-Keeps tokens)
