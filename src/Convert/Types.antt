-- ===== src/Convert/Types.antt =====
-- The mjai events that src/majsoul/convert.rs writes, one constructor for each `json!`, with the
-- fields in its order; `dt_ms` is the field that is set afterwards. The `type` of an event is its
-- constructor.
use majsoulmanager.Prelude.{ℕ, Bool, List, Option}
use majsoulmanager.Prelude.Int.{ℤ}
use majsoulmanager.Prelude.Text.{Text}
use majsoulmanager.Proto.Record.{PlayerResult}
use majsoulmanager.Events.Types.{ChiPengGangType, Meld}

pub record GameMetadata : Type 0 where
  pub mode_id : ℤ
  pub room : Text
  pub game_length : Text
  pub players : ℕ
  pub year : ℕ

-- "majsoul" of `start_game`. A rank is its code points; the other texts are UTF-8.
pub record Header : Type 0 where
  pub uuid : Text
  pub start_time : ℕ
  pub end_time : ℕ
  pub account_ids : List ℕ
  pub level_ids : List ℕ
  pub ranks : List Text
  pub level_scores : List ℤ
  pub metadata : Option GameMetadata

pub record StartKyoku : Type 0 where
  pub bakaze : Text
  pub dora_marker : Text
  pub kyoku : ℕ
  pub honba : ℕ
  pub kyotaku : ℕ
  pub oya : ℕ
  pub scores : List ℤ
  pub tehais : List (List Text)

pub record Hora : Type 0 where
  pub actor : ℕ
  pub target : ℕ
  pub pai : Text
  pub hora_tehais : List Text
  pub hora_furos : List Meld
  pub fu : ℕ
  pub fan : ℕ
  pub yakuman : Bool
  pub riichi : Bool
  pub dora_markers : List Text
  pub uradora_markers : List Text
  pub yakus : List (Text × ℕ)
  pub yaku_ids : List ℕ
  pub deltas : List ℤ
  pub scores : List ℤ
  pub ron : ℤ
  pub tsumo_dealer : ℤ
  pub tsumo_non_dealer : ℤ

-- `called` is a chi, a pon or a daiminkan; `abortive` is the `ryukyoku` of an abortive draw.
pub data Body : Type 0 where
  start_game : List Text → Header → Body
  start_kyoku : StartKyoku → Body
  dora : Text → Body
  reach reach_accepted : ℕ → Body
  tsumo : ℕ → Text → Body
  dahai : ℕ → Text → Bool → Body
  called : ChiPengGangType → ℕ → ℕ → Text → List Text → Body
  ankan : ℕ → List Text → Body
  kakan : ℕ → Text → Body
  hora : Hora → Body
  ryukyoku : List Bool → Bool → List (List Text) → List ℤ → List ℤ → Body
  abortive : Text → Option ℕ → List Text → Body
  end_kyoku : Body
  nukidora : ℕ → Bool → Body
  end_game : List ℤ → List PlayerResult → Body

pub record Mjai : Type 0 where
  pub body : Body
  pub dt_ms : Option ℕ
