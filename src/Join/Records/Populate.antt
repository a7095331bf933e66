-- ===== src/Join/Records/Populate.antt =====
-- What `populate_timestamps_from_file` makes of each record of the table.
use trading_latency_benchmar.Prelude.{
  ℕ, suc, ◌<◌, ◌≡◌, refl, ◌∙◌, sym, ap, ap₂, arith, subst, false, Option, none, some, List, [], ◌∷◌,
  get_or, set, map, ◌==◌, if◌then◌else◌, All, Bytes, Bool-cases, inl, inr,
}
use trading_latency_benchmar.Sort.Laws.{IsIncreasing}
use trading_latency_benchmar.Join.Line.{read_line}
use trading_latency_benchmar.Join.Sequences.{returned, JoinRecord, empty_record, find_record_by_seq}
use trading_latency_benchmar.Join.Sequences.Table.{index_of, find_record_by_seq-index_of}
use trading_latency_benchmar.Join.Records.{
  FileType, store_field, store_fields, populate_found, populate_lines,
  populate_timestamps_from_file,
}

abbrev pub seq_nums : List JoinRecord → List ℕ
seq_nums = map (λ (r : JoinRecord). r.seq_num)

-- What a line that was read does to a record: it counts if it has the record's sequence number.
pub take_found : FileType → Option (ℕ × List Bytes) → JoinRecord → JoinRecord
take_found file_type none r = r
take_found file_type (some found) r =
    if r.seq_num == found.0 then store_fields file_type (found.1) r else r

-- What the lines of a file do to a record.
pub take_lines : FileType → Bytes → ℕ → List Bytes → JoinRecord → JoinRecord
take_lines file_type target_ip target_port [] r = r
take_lines file_type target_ip target_port (line ∷ rest) r =
    take_lines file_type target_ip target_port rest
      (take_found file_type (read_line target_ip target_port line) r)

store_fields-seq_num :
    (file_type : FileType) (fields : List Bytes) (r : JoinRecord)
    → (store_fields file_type fields r).seq_num ≡ r.seq_num
unfolding store_fields store_field
store_fields-seq_num FileType.client_oneway_main fields r = ground arith
store_fields-seq_num FileType.client_oneway_tx fields r = ground arith
store_fields-seq_num FileType.client_roundtrip_main fields r = ground arith
store_fields-seq_num FileType.client_roundtrip_tx fields r = ground arith
store_fields-seq_num FileType.server_oneway_main fields r = ground arith
store_fields-seq_num FileType.server_roundtrip_main fields r = ground arith
store_fields-seq_num FileType.server_roundtrip_tx fields r = ground arith
store_fields-seq_num FileType.unknown fields r = refl

pub take_found-seq_num :
    (file_type : FileType) (found : Option (ℕ × List Bytes)) (r : JoinRecord)
    → (take_found file_type found r).seq_num ≡ r.seq_num
unfolding take_found
take_found-seq_num file_type none r = refl
take_found-seq_num file_type (some (s, fields)) r =
    ground (arith, store_fields-seq_num file_type fields r)

pub take_lines-seq_num :
    (file_type : FileType) (target_ip : Bytes) (target_port : ℕ) (lines : List Bytes)
    (r : JoinRecord)
    → (take_lines file_type target_ip target_port lines r).seq_num ≡ r.seq_num
unfolding take_lines
take_lines-seq_num file_type target_ip target_port [] r = refl
take_lines-seq_num file_type target_ip target_port (line ∷ rest) r =
    let found = read_line target_ip target_port line in
    take_lines-seq_num file_type target_ip target_port rest (take_found file_type found r)
    ∙ take_found-seq_num file_type found r

pub seq_nums-map :
    (f : JoinRecord → JoinRecord) (records : List JoinRecord)
    → ((r : JoinRecord) → (f r).seq_num ≡ r.seq_num)
    → seq_nums (map f records) ≡ seq_nums records
seq_nums-map f [] h = refl
seq_nums-map f (r ∷ rs) h = ap₂ ◌∷◌ (h r) (seq_nums-map f rs h)

-- Records above a sequence number do not take its lines.
map-above :
    (file_type : FileType) (s : ℕ) (fields : List Bytes) (records : List JoinRecord)
    → All (λ y. s < y) (seq_nums records)
    → map (take_found file_type (some (s, fields))) records ≡ records
unfolding take_found
map-above file_type s fields [] h = refl
map-above file_type s fields (r ∷ rs) (above, h) =
    let other : r.seq_num == s ≡ false = ground arith in
    rw other (ap₂ ◌∷◌ refl (map-above file_type s fields rs h))

-- The record at an index, if there is one, takes the fields.
place_fields : FileType → List Bytes → Option ℕ → List JoinRecord → List JoinRecord
place_fields file_type fields none records = records
place_fields file_type fields (some i) records =
    set records i (store_fields file_type fields (get_or records i (empty_record 0)))

place_fields-map :
    (file_type : FileType) (s : ℕ) (fields : List Bytes) (records : List JoinRecord)
    → IsIncreasing (seq_nums records)
    → place_fields file_type fields (index_of s (seq_nums records)) records
      ≡ map (take_found file_type (some (s, fields))) records
unfolding place_fields index_of take_found
place_fields-map file_type s fields [] h = refl
place_fields-map file_type s fields (r ∷ rs) (above, h) = elim (Bool-cases (r.seq_num == s)) [
  | inl here ↦
      let above_s : All (λ y. s < y) (seq_nums rs) =
        subst (λ k. All (λ y. k < y) (seq_nums rs)) (ground (arith, here)) above in
      rw here (ap₂ ◌∷◌ refl (sym (map-above file_type s fields rs above_s)))
  | inr further ↦ rw further (
      place_further file_type fields (index_of s (seq_nums rs)) r rs
      ∙ ap (λ t. r ∷ t) (place_fields-map file_type s fields rs h))
]
  where
    place_further :
        (file_type : FileType) (fields : List Bytes) (place : Option ℕ) (r : JoinRecord)
        (rs : List JoinRecord)
        → place_fields file_type fields
            (elim place [ none ↦ none | some i ↦ some (suc i) ])
            (r ∷ rs)
          ≡ r ∷ place_fields file_type fields place rs
    place_further file_type fields none r rs = refl
    place_further file_type fields (some i) r rs = refl

map-nothing :
    (file_type : FileType) (rs : List JoinRecord) → map (take_found file_type none) rs ≡ rs
unfolding take_found
map-nothing file_type [] = refl
map-nothing file_type (r ∷ rs) = ap (λ t. r ∷ t) (map-nothing file_type rs)

found_place :
    (file_type : FileType) (fields : List Bytes) (place : Option ℕ) (records : List JoinRecord)
    → (elim place [
      | none ↦ records
      | some record_idx ↦
          set records record_idx
            (store_fields file_type fields (get_or records record_idx (empty_record 0)))
    ])
      ≡ place_fields file_type fields place records
unfolding place_fields
found_place file_type fields none records = refl
found_place file_type fields (some i) records = refl

populate_found-map :
    (file_type : FileType) (found : Option (ℕ × List Bytes)) (records : List JoinRecord)
    → IsIncreasing (seq_nums records)
    → populate_found file_type found records ≡ map (take_found file_type found) records
unfolding populate_found
populate_found-map file_type none records h = sym (map-nothing file_type records)
populate_found-map file_type (some (s, fields)) records h =
    found_place file_type fields (find_record_by_seq records s) records
    ∙ (ap (λ place. place_fields file_type fields place records)
          (find_record_by_seq-index_of records s h)
        ∙ place_fields-map file_type s fields records h)

-- One line after the other, for each record at a time.
map-take_lines :
    (file_type : FileType) (target_ip : Bytes) (target_port : ℕ) (line : Bytes) (rest : List Bytes)
    (records : List JoinRecord)
    → map
        (take_lines file_type target_ip target_port rest)
        (map (take_found file_type (read_line target_ip target_port line)) records)
      ≡ map (take_lines file_type target_ip target_port (line ∷ rest)) records
unfolding take_lines
map-take_lines file_type target_ip target_port line rest [] = refl
map-take_lines file_type target_ip target_port line rest (r ∷ rs) =
    ap (λ t. take_lines file_type target_ip target_port (line ∷ rest) r ∷ t)
      (map-take_lines file_type target_ip target_port line rest rs)

map-no_lines :
    (file_type : FileType) (target_ip : Bytes) (target_port : ℕ) (records : List JoinRecord)
    → records ≡ map (take_lines file_type target_ip target_port []) records
unfolding take_lines
map-no_lines file_type target_ip target_port [] = refl
map-no_lines file_type target_ip target_port (r ∷ rs) =
    ap (λ t. r ∷ t) (map-no_lines file_type target_ip target_port rs)

populate_lines-map :
    (file_type : FileType) (target_ip : Bytes) (target_port : ℕ) (lines : List Bytes)
    (records : List JoinRecord)
    → IsIncreasing (seq_nums records)
    → populate_lines file_type target_ip target_port lines records
      ≡ map (take_lines file_type target_ip target_port lines) records
unfolding populate_lines
populate_lines-map file_type target_ip target_port [] records h =
    map-no_lines file_type target_ip target_port records
populate_lines-map file_type target_ip target_port (line ∷ rest) records h =
    let found = read_line target_ip target_port line in
    let next = map (take_found file_type found) records in
    let increasing : IsIncreasing (seq_nums next) =
      subst IsIncreasing
        (sym
          (seq_nums-map (take_found file_type found) records (take_found-seq_num file_type found)))
        h in
    ap (populate_lines file_type target_ip target_port rest)
      (populate_found-map file_type found records h)
    ∙ (populate_lines-map file_type target_ip target_port rest next increasing
        ∙ map-take_lines file_type target_ip target_port line rest records)

-- In a table whose sequence numbers increase, `populate_timestamps_from_file` changes each record on its
-- own: the lines behind the header that give its sequence number for the target store their fields, in
-- the order of the file, and no other line changes it.
pub populate_timestamps_from_file-map :
    (header : Bytes) (lines : List Bytes) (file_type : FileType) (target_ip : Bytes)
    (target_port : ℕ) (records : List JoinRecord)
    → IsIncreasing (seq_nums records)
    → populate_timestamps_from_file (some (header ∷ lines)) file_type target_ip target_port records
      ≡ (returned, map (take_lines file_type target_ip target_port lines) records)
unfolding populate_timestamps_from_file
populate_timestamps_from_file-map header lines file_type target_ip target_port records h =
    ap (λ t. (returned, t)) (populate_lines-map file_type target_ip target_port lines records h)
