-- ===== src/Gc/Examples.antt =====
-- A bucket of an orphan, an indexed pack and a young one.
use majsoulmanager.Prelude.{◌≡◌, refl, true, List, [], ◌∷◌, some}
use majsoulmanager.Prelude.Text.{Text, codes, ends_with, text_eq}
use majsoulmanager.Gc.Orphans.{
  ObjectEntry, contains, collect, orphans, orphan_keys, delete_all, is_old,
}

abbrev listed : List ObjectEntry
listed =
    record { key = codes "a.mjpack"; size = 1; last_modified = 10 }
    ∷ record { key = codes "b.mjpack"; size = 1; last_modified = 10 }
    ∷ record { key = codes "c.mjpack"; size = 1; last_modified = 95 }
    ∷ []

abbrev rows : List Text
rows = codes "b.mjpack" ∷ []

collects_orphan :
    collect (some rows) (some listed) (λ _. true) 100 20 ≡ (some 1, codes "a.mjpack" ∷ [])
unfolding collect orphans orphan_keys delete_all contains is_old ends_with text_eq
collects_orphan = refl
