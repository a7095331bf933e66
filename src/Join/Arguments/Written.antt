-- ===== src/Join/Arguments/Written.antt =====
-- When `main` of src/timestamp_csvjoin.c writes an output file.
use trading_latency_benchmar.Prelude.{
  ◌≡◌, refl, ◌∙◌, sym, ap, arith, Bool, true, Option, none, some, List, length, length-map, map,
  ◌&&◌, ◌==◌, if◌then◌else◌, inl, inr, Bool-cases, Bytes, some-of,
}
use trading_latency_benchmar.Join.Sequences.{Outcome, returned, failed}
use trading_latency_benchmar.Join.Records.{detect_file_type}
use trading_latency_benchmar.Join.Files.{
  expected_file_count, validate_file_combination, all_suit, validate_file_combination-all_suit,
}
use trading_latency_benchmar.Join.Process.{JoinSystem, process_join_operation}
use trading_latency_benchmar.Join.Arguments.{
  JoinArgument, Arguments, Parsed, parsed, refused, helped, parse_arguments, join_config, join_main,
}
use trading_latency_benchmar.Join.Arguments.Checked.{IsComplete, parse_arguments-IsComplete}

module _ (memory : Bool) (system : JoinSystem) (open_file : Bytes → Option (List Bytes))
    (os : List JoinArgument) where
  -- What lies behind an output file with these lines.
  pub record IsWritten (name : Bytes) (lines : List Bytes) : Type 0 where
    pub arguments : Arguments
    pub are_parsed : parse_arguments memory os ≡ parsed arguments
    pub are_complete : IsComplete os arguments
    pub as_many : length arguments.input_files ≡ expected_file_count arguments.mode arguments.target
    pub suitable :
        all_suit arguments.target (map detect_file_type (map open_file arguments.input_files))
        ≡ true
    pub named : name ≡ arguments.output_file
    pub joined : (process_join_operation system (join_config open_file arguments)).1 ≡ some lines

  after_join : Arguments → Outcome × Option (List Bytes) → Outcome × Option (Bytes × List Bytes)
  after_join a (o, none) = (o, none)
  after_join a (o, some lines) = (o, some (a.output_file, lines))

  after_check : Arguments → Outcome → Outcome × Option (Bytes × List Bytes)
  after_check a failed = (failed, none)
  after_check a returned = after_join a (process_join_operation system (join_config open_file a))

  module _ (name : Bytes) (lines : List Bytes) where
    from_join :
        (a : Arguments) (r : Outcome × Option (List Bytes))
        → (after_join a r).1 ≡ some (name, lines)
        → (name ≡ a.output_file) × (r.1 ≡ some lines)
    unfolding after_join
    from_join a (o, none) e = absurd (ground (arith, e))
    from_join a (o, some ls) e =
        (sym (ap (λ p. p.0) (some-of e)), ap some (ap (λ p. p.1) (some-of e)))

    checked :
        (a : Arguments)
        → parse_arguments memory os ≡ parsed a
        → (after_check a
            (validate_file_combination a.mode a.target (map open_file a.input_files))).1
          ≡ some (name, lines)
        → IsWritten name lines
    unfolding after_check
    checked a is_parsed e =
        let files = map open_file a.input_files in
        let fits =
          length files == expected_file_count a.mode a.target
          && all_suit a.target (map detect_file_type files) in
        let test = validate_file_combination-all_suit a.mode a.target files in
        elim (Bool-cases fits) [
          | inl ok ↦
              let joined =
                ap (λ o. (after_check a o).1)
                  (test ∙ ap (λ (k : Bool). if k then returned else failed) ok) in
              let (same_name, is_output) =
                from_join a (process_join_operation system (join_config open_file a))
                  (sym joined ∙ e) in
              record {
                arguments = a;
                are_parsed = is_parsed;
                are_complete = parse_arguments-IsComplete memory os a is_parsed;
                as_many = ground (arith, ok, length-map a.input_files open_file);
                suitable = ground (arith, ok);
                named = same_name;
                joined = is_output;
              }
          | inr wrong ↦
              let none_left : none ≡ some (name, lines) =
                sym (
                  ap (λ o. (after_check a o).1)
                    (test ∙ ap (λ (k : Bool). if k then returned else failed) wrong))
                ∙ e in
              absurd (ground (arith, none_left))
        ]

    from_parsed :
        (p : Parsed)
        → parse_arguments memory os ≡ p
        → (elim p as (λ q. Outcome × Option (Bytes × List Bytes)) [
          | refused ↦ (failed, none)
          | helped ↦ (returned, none)
          | parsed a ↦
              after_check a
                (validate_file_combination a.mode a.target (map open_file a.input_files))
        ]).1
          ≡ some (name, lines)
        → IsWritten name lines
    from_parsed refused is_parsed e = absurd (ground (arith, e))
    from_parsed helped is_parsed e = absurd (ground (arith, e))
    from_parsed (parsed a) is_parsed e = checked a is_parsed e

    -- Whatever the arguments, the files and the memory are: if the program writes an output file then
    -- exactly one mode and one target were named, with an address, a port and at most ten files in order;
    -- there are as many files as the mode and the target need, and each has a type that the target takes;
    -- the output has the name that was asked for, and the lines of the join of these files.
    pub join_main-IsWritten :
        (join_main memory system open_file os).1 ≡ some (name, lines) → IsWritten name lines
    unfolding join_main after_check after_join
    join_main-IsWritten e = from_parsed (parse_arguments memory os) refl e
