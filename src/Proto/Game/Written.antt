-- ===== src/Proto/Game/Written.antt =====
-- Encoders of the parts of a game record, and the loops of `decode_game_record` run on them.
use majsoulmanager.Prelude.{
  ℕ, ◌%◌, ◌^◌, ◌<◌, ◌≡◌, refl, ap, ◌∙◌, List, [], ◌∷◌, ◌++◌, Option, none, some, arith, map, All,
  false,
}
use mathlib.Core.List.{append-nil, append_assoc}
use majsoulmanager.Proto.Errors.{ok}
use majsoulmanager.Proto.Fields.{Field, for_fields}
use majsoulmanager.Proto.Fields.Wire.{
  Item, varint, bytes, IsItem, write_varint, write_message, field_of,
}
use majsoulmanager.Proto.Fields.Messages.{run_fields, for_fields-write_message}
use majsoulmanager.Proto.Text.{IsText}
use majsoulmanager.Proto.Record.{RecordAction, PlayerResult, PlayerAccountMeta, is_empty}
use majsoulmanager.Proto.Record.Written.{
  Fits, extract_varint-write_varint, write_wrapper, decode_wrapper-write_wrapper,
  write_player_result, IsResult, decode_player_result-write, write_player_account, IsAccount,
  decode_player_account-write,
}
use majsoulmanager.Proto.Game.{
  Parts, Details, no_details, end_result_arm, head_arm, details_arm, action_arm,
  decode_new_format_actions, decode_details,
}

abbrev pub result_item : PlayerResult → Item
result_item r = bytes 1 (write_player_result r)

unfoldable pub write_end_result : List PlayerResult → List ℕ
write_end_result rs = write_message (map result_item rs)

-- Any list of byte fields with a small number is well formed.
pub All-bytes {ℓ} :
    {A : Type ℓ} (k : ℕ) (write : A → List ℕ) (xs : List A)
    → k < 2 ^ 32
    → All IsItem (map (λ x. bytes k (write x)) xs)
All-bytes k write [] h = tt
All-bytes k write (x ∷ xs) h = (h, All-bytes k write xs h)

pub run_end_result :
    (rs done : List PlayerResult)
    → All IsResult rs
    → run_fields end_result_arm done (map field_of (map result_item rs)) ≡ ok (done ++ rs)
unfolding run_fields end_result_arm
run_end_result [] done h = rw append-nil
run_end_result (r ∷ rs) done (h, hs) =
    rw (decode_player_result-write r h, run_fields)
      (run_end_result rs (done ++ r ∷ []) hs ∙ ap ok (append_assoc done (r ∷ []) rs))

abbrev pub account_item : PlayerAccountMeta → Item
account_item a = bytes 11 (write_player_account a)

-- The account fields of a head are collected in order; what follows them is read after.
pub run_accounts :
    (accounts : List PlayerAccountMeta) (fs : List Field) (p : Parts)
    → All IsAccount accounts
    → run_fields head_arm p (map field_of (map account_item accounts) ++ fs)
      ≡ run_fields head_arm (record p { accounts = p.accounts ++ accounts }) fs
unfolding run_fields head_arm
run_accounts [] fs p h = rw append-nil
run_accounts (a ∷ accounts) fs p (h, hs) =
    rw (decode_player_account-write a h, run_fields)
      (run_accounts accounts fs (record p { accounts = p.accounts ++ a ∷ [] }) hs
        ∙ ap (λ l. run_fields head_arm (record p { accounts = l }) fs)
            (append_assoc p.accounts (a ∷ []) accounts))

abbrev action_items : RecordAction → List Item
action_items a = elim a.passed_ms [
  | none ↦ bytes 3 (write_wrapper a.name a.body) ∷ []
  | some t ↦ varint 1 t ∷ bytes 3 (write_wrapper a.name a.body) ∷ []
]

unfoldable pub write_action : RecordAction → List ℕ
write_action a = write_message (action_items a)

abbrev pub InRange : Option ℕ → Type 0
InRange none = Unit
InRange (some t) = t < 2 ^ 32

pub record IsAction (a : RecordAction) : Type 0 where
  pub name : IsText a.name
  pub named : is_empty a.name ≡ false
  pub passed : InRange a.passed_ms
  pub fits_wrapper : Fits (write_wrapper a.name a.body)
  pub fits : Fits (write_action a)

action_loop :
    (a : RecordAction)
    → IsAction a
    → for_fields action_arm (none, none) (write_action a)
      ≡ ok (a.passed_ms, some (write_wrapper a.name a.body))
action_loop a h = with_time a.passed_ms a.name a.body h.passed h.fits
  where
    with_time :
        (passed : Option ℕ) (name body : List ℕ)
        → InRange passed
        → Fits (write_action (record { name = name; body = body; passed_ms = passed }))
        → for_fields action_arm
            (none, none)
            (write_action (record { name = name; body = body; passed_ms = passed }))
          ≡ ok (passed, some (write_wrapper name body))
    with_time none name body r fits =
        unfold write_action action_arm run_fields in
        for_fields-write_message action_arm (none, none) _ (omega arith) fits
    with_time (some t) name body r fits =
        unfold write_action action_arm run_fields in
        for_fields-write_message action_arm (none, none) _ (omega arith) fits
        ∙ ground (arith, extract_varint-write_varint t (omega arith))

wrapper_not_empty : (name body : List ℕ) → is_empty (write_wrapper name body) ≡ false
unfolding write_wrapper write_message write_varint
wrapper_not_empty name body = refl

new_format_actions :
    (actions : List RecordAction)
    → All IsAction actions
    → decode_new_format_actions (map write_action actions) ≡ ok actions
unfolding decode_new_format_actions
new_format_actions [] h = refl
new_format_actions (a ∷ actions) (h, hs) = ground (
  arith,
  action_loop a h,
  wrapper_not_empty a.name a.body,
  decode_wrapper-write_wrapper a.name a.body h.name h.fits_wrapper,
  h.named,
  new_format_actions actions hs,
)

unfoldable pub write_details : ℕ → List RecordAction → List ℕ
write_details version actions =
    write_message (varint 2 version ∷ map (λ a. bytes 3 (write_action a)) actions)

run_details :
    (actions : List RecordAction) (d : Details)
    → run_fields details_arm d (map field_of (map (λ a. bytes 3 (write_action a)) actions))
      ≡ ok (record d { actions = d.actions ++ map write_action actions })
unfolding run_fields details_arm
run_details [] d = rw append-nil
run_details (a ∷ actions) d =
    run_details actions (record d { actions = d.actions ++ write_action a ∷ [] })
    ∙ ap (λ l. ok (record d { actions = l }))
        (append_assoc d.actions (write_action a ∷ []) (map write_action actions))

details_loop :
    (version : ℕ) (actions : List RecordAction)
    → version < 2 ^ 32
    → Fits (write_details version actions)
    → for_fields details_arm no_details (write_details version actions)
      ≡ ok (record { version = version; raw_records = []; actions = map write_action actions })
unfolding write_details
details_loop version actions hv fits =
    let low : version % 2 ^ 32 ≡ version = omega arith in
    let room : (1 < 2 ^ 32) × (version < 2 ^ 64) = omega arith in
    for_fields-write_message details_arm no_details _
      ((omega arith, omega arith), All-bytes 3 write_action actions (omega arith)) fits
    ∙ (unfold run_fields details_arm in
        rw (extract_varint-write_varint version (omega arith), run_fields)
          (rw low
            (run_details actions (record { version = version; raw_records = []; actions = [] }))))

pub details_read :
    (version : ℕ) (actions : List RecordAction)
    → version < 2 ^ 32
    → All IsAction actions
    → Fits (write_details version actions)
    → decode_details (write_details version actions) ≡ ok actions
unfolding decode_details
details_read version [] hv h fits = ground (arith, details_loop version [] hv fits)
details_read version (a ∷ actions) hv h fits =
    ground (arith, details_loop version (a ∷ actions) hv fits, new_format_actions (a ∷ actions) h)
