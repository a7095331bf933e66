-- ===== src/Csv/Header.antt =====
-- `get_csv_header` of src/timestamp_common.c and `detect_file_type` of src/timestamp_csvjoin.c.
use trading_latency_benchmar.Prelude.{◌≡◌, refl, some, List, ◌∷◌, Bytes}
use trading_latency_benchmar.Csv.{CsvType, get_csv_header}
use trading_latency_benchmar.Join.Records.{FileType, detect_file_type}

-- What the join takes a file of the type for; one header serves both kinds of client TX file.
abbrev pub file_type_of : CsvType → FileType
file_type_of CsvType.client_main_oneway = FileType.client_oneway_main
file_type_of CsvType.client_main_roundtrip = FileType.client_roundtrip_main
file_type_of CsvType.client_tx = FileType.client_oneway_tx
file_type_of CsvType.server_main_oneway = FileType.server_oneway_main
file_type_of CsvType.server_main_roundtrip = FileType.server_roundtrip_main
file_type_of CsvType.server_tx = FileType.server_roundtrip_tx
file_type_of (CsvType.other v) = FileType.unknown

-- Whatever lines follow, `detect_file_type` tells the six kinds of files of the client and the server
-- apart by the header that `get_csv_header` gives them, and does not know that of another type.
pub detect_file_type-get_csv_header :
    (type : CsvType) (lines : List Bytes)
    → detect_file_type (some (get_csv_header type ∷ lines)) ≡ file_type_of type
unfolding detect_file_type get_csv_header
detect_file_type-get_csv_header CsvType.client_main_oneway lines = refl
detect_file_type-get_csv_header CsvType.client_main_roundtrip lines = refl
detect_file_type-get_csv_header CsvType.client_tx lines = refl
detect_file_type-get_csv_header CsvType.server_main_oneway lines = refl
detect_file_type-get_csv_header CsvType.server_main_roundtrip lines = refl
detect_file_type-get_csv_header CsvType.server_tx lines = refl
detect_file_type-get_csv_header (CsvType.other v) lines = refl
