-- ===== src/Json/Report.antt =====
-- config_import_report_t. An error text is the message's format with its arguments: none is empty
-- and none reaches the 96 bytes of the buffer, so only whether one is there decides anything.
use Prim.Native.String.{String}
use config_wp.Base.{ℕ, ◌+◌, ◌%◌, ◌^◌, Option, none, some}
use config_wp.Base.Int.{ℤ}

pub data Message : Type 0 where
  not_an_array : String → Message
  not_an_object : String → ℕ → Message
  missing_channel : String → ℕ → Message
  channel_out_of_range : String → ℕ → ℤ → Message
  duplicate_channel : String → ℕ → ℕ → Message
  malformed_field : String → ℕ → Message
  setter_rejected : String → ℕ → Message
  system_not_an_object system_malformed_field system_setter_rejected : Message

pub record Report : Type 0 where
  pub accepted : ℕ
  pub rejected : ℕ
  pub unknown_keys : ℕ
  pub malformed : ℕ
  pub first_error : Option Message

abbrev pub report_reset : Report
report_reset = record {
  accepted = 0;
  rejected = 0;
  unknown_keys = 0;
  malformed = 0;
  first_error = none;
}

abbrev pub keep_first : Option Message → Message → Option Message
keep_first none m = some m
keep_first (some old) m = some old

unfoldable pub report_first_error : Report → Message → Report
report_first_error r m = record r { first_error = keep_first r.first_error m }

-- `x++` on a uint16_t
abbrev pub increment : ℕ → ℕ
increment x = (x + 1) % 2 ^ 16

abbrev pub count_accepted : Report → Report
count_accepted r = record r { accepted = increment r.accepted }

abbrev pub count_rejected : Report → Report
count_rejected r = record r { rejected = increment r.rejected }

abbrev pub count_unknown : Report → Report
count_unknown r = record r { unknown_keys = increment r.unknown_keys }

abbrev pub count_malformed : Report → Report
count_malformed r = record r { malformed = increment r.malformed }
