-- ===== src/Events/Types.antt =====
-- The events of src/majsoul/events.rs.
use majsoulmanager.Prelude.{ℕ, Bool, List, Option}
use majsoulmanager.Prelude.Int.{ℤ}
use majsoulmanager.Prelude.Text.{Text}

pub record NewRound : Type 0 where
  pub chang : ℕ
  pub ju : ℕ
  pub ben : ℕ
  pub liqibang : ℕ
  pub dora_marker : Text
  pub doras : List Text
  pub scores : List ℤ
  pub tiles : List (List Text)

pub record DealTile : Type 0 where
  pub seat : ℕ
  pub tile : Text
  pub doras : List Text

pub record DiscardTile : Type 0 where
  pub seat : ℕ
  pub tile : Text
  pub is_liqi : Bool
  pub moqie : Bool
  pub is_wliqi : Bool
  pub doras : List Text

pub data ChiPengGangType : Type 0 where
  chi pon daiminkan : ChiPengGangType

pub record ChiPengGang : Type 0 where
  pub seat : ℕ
  pub call_type : ChiPengGangType
  pub tiles : List Text
  pub froms : List ℕ

pub data AnGangAddGangType : Type 0 where
  kakan ankan : AnGangAddGangType

pub record AnGangAddGang : Type 0 where
  pub seat : ℕ
  pub gang_type : AnGangAddGangType
  pub tiles : Text
  pub doras : List Text

pub record FanInfo : Type 0 where
  pub id : ℕ
  pub name : Text
  pub val : ℕ

pub record Meld : Type 0 where
  pub kind : Text
  pub tiles : List Text

pub record HuleInfo : Type 0 where
  pub seat : ℕ
  pub zimo : Bool
  pub hand : List Text
  pub melds : List Meld
  pub hu_tile : Text
  pub fu : ℕ
  pub point_rong : ℤ
  pub point_zimo_qin : ℤ
  pub point_zimo_xian : ℤ
  pub han : ℕ
  pub yiman : Bool
  pub riichi : Bool
  pub doras : List Text
  pub ura_doras : List Text
  pub yakus : List FanInfo

pub record Hule : Type 0 where
  pub hules : List HuleInfo
  pub delta_scores : List ℤ
  pub scores : List ℤ
  pub doras : List Text

pub record NoTile : Type 0 where
  pub scores : List ℤ
  pub delta_scores : List ℤ
  pub tenpai : List Bool
  pub liujumanguan : Bool
  pub tenpai_hands : List (List Text)

pub record LiuJu : Type 0 where
  pub liuju_type : ℕ
  pub seat : Option ℕ
  pub tiles : List Text

pub record BaBei : Type 0 where
  pub seat : ℕ
  pub moqie : Bool
  pub doras : List Text

pub data GameEvent : Type 0 where
  new_round : NewRound → GameEvent
  deal_tile : DealTile → GameEvent
  discard_tile : DiscardTile → GameEvent
  chi_peng_gang : ChiPengGang → GameEvent
  an_gang_add_gang : AnGangAddGang → GameEvent
  hule : Hule → GameEvent
  no_tile : NoTile → GameEvent
  liu_ju : LiuJu → GameEvent
  ba_bei : BaBei → GameEvent
