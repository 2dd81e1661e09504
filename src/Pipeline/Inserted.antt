-- ===== src/Pipeline/Inserted.antt =====
-- What the inserts of src/indexer.rs leave of the world.
use majsoulmanager.Prelude.{ℕ, ◌≡◌, refl, sym, ap, List, [], ◌∷◌, ◌++◌, length, take, arith}
use majsoulmanager.Pipeline.Types.{Record, PlayerGame}
use majsoulmanager.Pipeline.World.{World, Call, Tried, ok, insert_batch, insert_player_games}

take-all : {A : Type 0} (xs : List A) → take (length xs) xs ≡ xs
take-all [] = refl
take-all (x ∷ xs) = ap (λ t. x ∷ t) (take-all xs)

-- An insert: so many of the rows are new.
pub record Inserted (rows : List Record) (world : World) (r : Tried Unit × World) : Type 0 where
  pub count : ℕ
  pub index : r.1.index ≡ take count rows ++ world.index
  pub whole : (a : Unit) → r.0 ≡ ok a → take count rows ≡ rows
  pub bucket : r.1.bucket ≡ world.bucket
  pub stored : r.1.stored ≡ world.stored

pub insert_batch-Inserted :
    (call : Call) (rows : List Record) (world : World)
    → Inserted rows world (insert_batch call rows world)
unfolding insert_batch
insert_batch-Inserted call [] world = record {
  count = 0;
  index = refl;
  whole = λ a h. refl;
  bucket = refl;
  stored = refl;
}
insert_batch-Inserted Call.done (row ∷ rows) world = record {
  count = length (row ∷ rows);
  index = ap (λ l. l ++ world.index) (sym (take-all (row ∷ rows)));
  whole = λ a h. take-all (row ∷ rows);
  bucket = refl;
  stored = refl;
}
insert_batch-Inserted (Call.failed n) (row ∷ rows) world = record {
  count = n;
  index = refl;
  whole = λ a h. absurd (ground (arith, h));
  bucket = refl;
  stored = refl;
}

pub insert_player_games-rest :
    (call : Call) (games : List PlayerGame) (world : World)
    → (((insert_player_games call games world).1).index ≡ world.index)
      × (((insert_player_games call games world).1).bucket ≡ world.bucket)
      × (((insert_player_games call games world).1).stored ≡ world.stored)
unfolding insert_player_games
insert_player_games-rest call [] world = (refl, refl, refl)
insert_player_games-rest call (game ∷ games) world = (refl, refl, refl)
