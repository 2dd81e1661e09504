-- ===== src/Convert/Riichi.antt =====
-- The declarations of riichi in the stream that `events_to_mjai` of src/majsoul/convert.rs answers.
use majsoulmanager.Prelude.{List}
use majsoulmanager.Prelude.Text.{Text}
use majsoulmanager.Convert.Standing.{Standing}
