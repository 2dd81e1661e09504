-- ===== src/Mjai/Examples.antt =====
-- A payload of two lines, on values that are the lines themselves, and the theorem at it.
use majsoulmanager.Prelude.{
  ℕ, ◌<◌, ◌^◌, ◌≡◌, refl, ◌||◌, true, [], Option, none, some, if◌then◌else◌, arith,
}
use majsoulmanager.Prelude.Int.{ℤ}
use majsoulmanager.Prelude.Text.{Text, codes, text_eq}
use majsoulmanager.Json.{Json}
use majsoulmanager.Mjai.{DateTime, ok, parse_metadata}
use majsoulmanager.Mjai.Bounds.{Read, events-parse_metadata}

-- Every line is a `start_game` whose header's uuid is the line.
abbrev get_line : Text → Text → Option Text
get_line line k =
    if text_eq k (codes "type")
    then some (codes "start_game")
    else if text_eq k (codes "majsoul") || text_eq k (codes "uuid")
    then some line
    else none

pub no_number : (v : Text) (n : ℕ) → none ≡ some n → n < 2 ^ 64
no_number v n h = absurd (ground arith)

abbrev pub line_json : Json
line_json = record {
  Value = Text;
  get = get_line;
  as_str = λ v. some v;
  as_u64 = λ v. none;
  as_i64 = λ v. none;
  as_bool = λ v. none;
  as_array = λ v. none;
  is_object = λ v. true;
  to_string = λ v. v;
  as_u64-lt = no_number;
}

abbrev pub line_value : Text → Option Text
line_value line = some line

abbrev pub no_time : ℤ → Option DateTime
no_time seconds = none

two_lines :
    parse_metadata line_json line_value no_time (codes " ab \n\ncd")
    ≡ ok (record {
      players = [];
      rule = none;
      event_count = 2;
      played_at = none;
      majsoul_uuid = some (codes "ab");
    })
unfolding parse_metadata
two_lines = refl

events-parse_metadata_example : Read line_json line_value no_time (codes "ab\ncd")
events-parse_metadata_example = events-parse_metadata line_json line_value no_time (codes "ab\ncd")
