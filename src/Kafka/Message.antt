-- ===== src/Kafka/Message.antt =====
-- `IngestMessage` of src/kafka.rs, and its way through a record of the topic. A time is in
-- milliseconds, so that `trunc_subsecs(3)` changes nothing.
use majsoulmanager.Prelude.{
  ℕ, ◌<◌, ◌≡◌, refl, List, [], ◌∷◌, ◌++◌, Option, none, some, if◌then◌else◌, length, arith,
}
use majsoulmanager.Prelude.Int.{pos, negsuc}
use majsoulmanager.Prelude.Text.{Text, codes, text_eq, text_eq_iff}
use majsoulmanager.Proto.Text.{from_utf8_lossy, IsText}
use majsoulmanager.Replay.Reading.{and_then}
use majsoulmanager.Mjai.{DateTime}
use majsoulmanager.Pack.Format.{Uuid}

pub record IngestMessage : Type 0 where
  pub record_id : Uuid
  pub source : Text
  pub played_at : Option DateTime
  pub raw : List ℕ
  pub majsoul_pb : Option (List ℕ)
  pub received_at : DateTime

-- rskafka's `Record`, with its headers as a list.
pub record TopicRecord : Type 0 where
  pub key : Option (List ℕ)
  pub value : Option (List ℕ)
  pub headers : List (Text × List ℕ)
  pub timestamp : DateTime

pub data KafkaError : Type 0 where
  broker timeout malformed store : KafkaError

pub data Received {ℓ} (A : Type ℓ) : Type ℓ where
  err : KafkaError → Received A
  ok : A → Received A

-- A time of the years 0 to 9999, which RFC 3339 writes with a year of four digits.
abbrev pub HasFourDigitYear : DateTime → Type 0
HasFourDigitYear (pos ms) = ms < 253402300800000
HasFourDigitYear (negsuc ms) = ms < 62167219200000

abbrev pub HasWrittenYear : Option DateTime → Type 0
HasWrittenYear none = Unit {0}
HasWrittenYear (some at) = HasFourDigitYear at

-- What uuid and chrono write and read. chrono signs a year of more than four digits, and does not read
-- it again.
pub record Writing : Type 0 where
  pub uuid_text : Uuid → Text
  pub parse_uuid : Text → Option Uuid
  pub to_rfc3339 : DateTime → Text
  pub parse_from_rfc3339 : Text → Option DateTime
  pub parse_uuid-uuid_text : (id : Uuid) → length id ≡ 16 → parse_uuid (uuid_text id) ≡ some id
  pub parse-to_rfc3339 :
      (at : DateTime) → HasFourDigitYear at → parse_from_rfc3339 (to_rfc3339 at) ≡ some at
  pub uuid_text-IsText : (id : Uuid) → IsText (uuid_text id)
  pub to_rfc3339-IsText : (at : DateTime) → IsText (to_rfc3339 at)

-- `str::from_utf8(..).ok()`
unfoldable pub utf8_text : List ℕ → Option Text
utf8_text bytes = if text_eq (from_utf8_lossy bytes) bytes then some bytes else none

unfoldable pub get_header : Text → List (Text × List ℕ) → Option (List ℕ)
unfolding text_eq
get_header name [] = none
get_header name ((key, value) ∷ headers) =
    if text_eq key name then some value else get_header name headers

abbrev or_malformed {ℓ κ} : {A : Type ℓ} {B : Type κ} → Option A → (A → Received B) → Received B
or_malformed none next = err KafkaError.malformed
or_malformed (some a) next = next a

abbrev optional : Text → Option (List ℕ) → List (Text × List ℕ)
optional name none = []
optional name (some value) = (name, value) ∷ []

unfoldable pub headers_of : Text → Option (List ℕ) → Option (List ℕ) → List (Text × List ℕ)
headers_of source played_at pb =
    (codes "source", source)
    ∷ (optional (codes "played_at") played_at ++ optional (codes "majsoul_pb") pb)

module _ (w : Writing) where
  abbrev written : Option DateTime → Option (List ℕ)
  written none = none
  written (some at) = some (w.to_rfc3339 at)

  unfoldable pub into_record : IngestMessage → TopicRecord
  unfolding headers_of
  into_record m = record {
    key = some (w.uuid_text m.record_id);
    value = some m.raw;
    headers = headers_of m.source (written m.played_at) m.majsoul_pb;
    timestamp = m.received_at;
  }

  unfoldable pub from_record : TopicRecord → Received IngestMessage
  unfolding utf8_text get_header
  from_record r = or_malformed r.key λ key.
      or_malformed (and_then (utf8_text key) w.parse_uuid) λ record_id.
        or_malformed (and_then (get_header (codes "source") r.headers) utf8_text) λ source.
          or_malformed r.value λ raw. ok (record {
            record_id = record_id;
            source = source;
            played_at =
                and_then (and_then (get_header (codes "played_at") r.headers) utf8_text)
                  w.parse_from_rfc3339;
            raw = raw;
            majsoul_pb = get_header (codes "majsoul_pb") r.headers;
            received_at = r.timestamp;
          })

utf8_text-IsText : (text : Text) → IsText text → utf8_text text ≡ some text
unfolding utf8_text
utf8_text-IsText text h = ground (arith, h, (text_eq_iff (from_utf8_lossy text) text).1)

get_header-headers_of :
    (source : Text) (played_at pb : Option (List ℕ))
    → (get_header (codes "source") (headers_of source played_at pb) ≡ some source)
      × (get_header (codes "played_at") (headers_of source played_at pb) ≡ played_at)
      × (get_header (codes "majsoul_pb") (headers_of source played_at pb) ≡ pb)
unfolding get_header headers_of
get_header-headers_of source none none = (refl, refl, refl)
get_header-headers_of source none (some pb) = (refl, refl, refl)
get_header-headers_of source (some at) none = (refl, refl, refl)
get_header-headers_of source (some at) (some pb) = (refl, refl, refl)

module _ (w : Writing) where
  read_played_at :
      (at : Option DateTime)
      → HasWrittenYear at
      → and_then (and_then (written w at) utf8_text) w.parse_from_rfc3339 ≡ at
  read_played_at none year = refl
  read_played_at (some at) year =
      rw (utf8_text-IsText (w.to_rfc3339 at) (w.to_rfc3339-IsText at)) (w.parse-to_rfc3339 at year)

  -- A message with an id of sixteen bytes, a source that is text and, where it says when it was
  -- played, a time of the years 0 to 9999 is read back from its record as it was, with the time that
  -- it was received at.
  pub from_record-into_record :
      (m : IngestMessage)
      → length m.record_id ≡ 16
      → IsText m.source
      → HasWrittenYear m.played_at
      → from_record w (into_record w m) ≡ ok m
  unfolding from_record into_record
  from_record-into_record m id source year =
      let (a, b, c) = get_header-headers_of m.source (written w m.played_at) m.majsoul_pb in
      rw
        (
          utf8_text-IsText (w.uuid_text m.record_id) (w.uuid_text-IsText m.record_id),
          w.parse_uuid-uuid_text m.record_id id,
          a,
          utf8_text-IsText m.source source,
          b,
          c,
          read_played_at m.played_at year,
        )
        refl
