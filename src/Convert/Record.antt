-- ===== src/Convert/Record.antt =====
-- `convert_record_bytes` of src/majsoul/convert.rs. `gzip_lines` stands for serde_json and flate2,
-- which write the events, one line each, into a gzip stream, or fail.
use majsoulmanager.Prelude.{
  ℕ, ◌≢◌, refl, List, [], ◌∷◌, Option, none, some, ltb, if◌then◌else◌, length, arith,
}
use majsoulmanager.Prelude.Text.{Text}
use majsoulmanager.Proto.Errors.{
  Result, panic, stuck, ok, err, record_too_small, no_records, no_output, ◌>>=◌,
}
use majsoulmanager.Proto.Record.{RecordAction, is_empty}
use majsoulmanager.Proto.Game.{GameRecord, decode_game_record}
use majsoulmanager.Proto.Game.Total.{decode_game_record-ne-stuck}
use majsoulmanager.Events.Types.{GameEvent}
use majsoulmanager.Events.Action.{parse_record_action, parse_record_action-ne-stuck}
use majsoulmanager.Convert.Types.{GameMetadata, Mjai}
use majsoulmanager.Convert.Ranks.{metadata_of}
use majsoulmanager.Convert.Stream.{events_to_mjai}

abbrev keep :
    Option ℕ → Option GameEvent → List (Option ℕ × GameEvent) → List (Option ℕ × GameEvent)
keep passed_ms none events = events
keep passed_ms (some event) events = (passed_ms, event) ∷ events

unfoldable pub parse_actions : List RecordAction → Result (List (Option ℕ × GameEvent))
parse_actions [] = ok []
parse_actions (action ∷ actions) = do
  event ← parse_record_action action.name action.body
  events ← parse_actions actions
  ok (keep action.passed_ms event events)

-- `metadata.or(derived.as_ref())`
unfoldable pub known : Option GameMetadata → GameRecord → Option GameMetadata
unfolding metadata_of
known none r = metadata_of r
known (some metadata) r = some metadata

abbrev write : Text → Option (List ℕ) → Result (Text × List ℕ)
write uuid none = err no_output
write uuid (some compressed) = ok (uuid, compressed)

module _ (gzip_lines : List Mjai → Option (List ℕ)) where
  unfoldable pub convert_record : GameRecord → Option GameMetadata → Result (Text × List ℕ)
  unfolding parse_actions known events_to_mjai
  convert_record r metadata = if is_empty r.records then err no_records else (do
    events ← parse_actions r.records
    write r.uuid (gzip_lines (events_to_mjai r events (known metadata r))))

  unfoldable pub convert_record_bytes : List ℕ → Option GameMetadata → Result (Text × List ℕ)
  unfolding convert_record
  convert_record_bytes raw_data metadata =
      if ltb (length raw_data) 20
      then err record_too_small
      else (do r ← decode_game_record raw_data; convert_record r metadata)

parse_actions-ne-stuck : (actions : List RecordAction) → parse_actions actions ≢ stuck
unfolding parse_actions
parse_actions-ne-stuck [] h = ground arith
parse_actions-ne-stuck (action ∷ actions) h =
    ground
      (arith, parse_record_action-ne-stuck action.name action.body, parse_actions-ne-stuck actions)

>>=-ne-stuck {ℓ κ} :
    {A : Type ℓ} {B : Type κ} (x : Result A) (next : A → Result B)
    → x ≢ stuck
    → ((a : A) → next a ≢ stuck)
    → (x >>= next) ≢ stuck
>>=-ne-stuck panic next h k = λ e. ground arith
>>=-ne-stuck stuck next h k = λ e. h refl
>>=-ne-stuck (err f) next h k = λ e. ground arith
>>=-ne-stuck (ok a) next h k = k a

convert_record-ne-stuck :
    (gzip_lines : List Mjai → Option (List ℕ)) (r : GameRecord) (metadata : Option GameMetadata)
    → convert_record gzip_lines r metadata ≢ stuck
unfolding convert_record
convert_record-ne-stuck gzip_lines r metadata h = ground (arith, parse_actions-ne-stuck r.records)

-- Whatever the bytes are and whatever the gzip writer does, convert_record_bytes comes to the uuid
-- with the written bytes, an error or a panic: none of the loops of the model runs out of fuel.
convert_record_bytes-ne-stuck :
    (gzip_lines : List Mjai → Option (List ℕ)) (raw_data : List ℕ) (metadata : Option GameMetadata)
    → convert_record_bytes gzip_lines raw_data metadata ≢ stuck
unfolding convert_record_bytes
convert_record_bytes-ne-stuck gzip_lines raw_data metadata = unless (
    >>=-ne-stuck (decode_game_record raw_data) (λ r. convert_record gzip_lines r metadata)
      (decode_game_record-ne-stuck raw_data) (λ r. convert_record-ne-stuck gzip_lines r metadata))
  where
    unless :
        (decode_game_record raw_data >>= (λ r. convert_record gzip_lines r metadata)) ≢ stuck
        → convert_record_bytes gzip_lines raw_data metadata ≢ stuck
    unless decoded h = ground (arith, decoded)
