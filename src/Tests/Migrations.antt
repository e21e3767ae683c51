-- ===== src/Tests/Migrations.antt =====
-- Two migrations, of which one is applied, in a database that is the list of the versions it notes.
use rent_auto.Prelude.{
  ◌≡◌, refl, String, true, false, ◌==◌, none, List, [], ◌∷◌, if◌then◌else◌, any, ◌||◌, Bool, Option,
  sym, ap, ◌∙◌,
}
use rent_auto.Domain.{Error}
use rent_auto.Delivery.{replied}
use rent_auto.Migrate.{
  FileSystem, Pool, Migration, load_migrations, load_entries, load_entry, validate_pair_map,
  migrate_up, up_from, apply_one,
}
use rent_auto.Migrate.Pending.{pending, IsPool, migrate_up-pending}

-- the names are spelled out, so that the tests on suffixes are tests on whole names
abbrev fs : FileSystem
fs = record {
  glob = replied ("1.up.sql" ∷ ("1.down.sql" ∷ ("2.up.sql" ∷ ("2.down.sql" ∷ []))));
  read_file = λ name. replied name;
  base = λ name. name;
  has_suffix = λ s suffix.
      if suffix == ".up" then s == "1.up" || s == "2.up" else s == "1.down" || s == "2.down";
  trim_suffix = λ s suffix.
      if suffix == ".sql"
      then (if s == "1.up.sql"
          then "1.up"
          else if s == "2.up.sql"
          then "2.up"
          else if s == "1.down.sql"
          then "1.down"
          else "2.down")
      else if s == "1.up" || s == "1.down"
      then "1"
      else "2";
  sort = λ versions. versions;
}

abbrev migrations : List Migration
migrations =
    record { version = "1"; up_sql = "1.up.sql"; down_sql = "1.down.sql" }
    ∷ (record { version = "2"; up_sql = "2.up.sql"; down_sql = "2.down.sql" } ∷ [])

abbrev pool : Pool (List String)
pool = record {
  ensure = λ w. (w, none);
  applied = λ w. replied w;
  begin = λ w. none;
  exec = λ w sql. (w, none);
  insert_version = λ w v. (v ∷ w, none);
  delete_version = λ w v. (w, none);
  commit = λ w. none;
}

if-eq-or : (b c : Bool) → (if b then true else c) ≡ (b || c)
if-eq-or true c = refl
if-eq-or false c = refl

pool-IsPool : IsPool pool (λ w. w)
pool-IsPool = record {
  applied_noted = λ w l h. let e : w ≡ l = cc in sym e;
  ensure_keeps = keeps;
  exec_keeps = λ w w' sql h. keeps w w' none h;
  insert_notes = notes;
}
  where
    keeps :
        (w w' : List String) (o : Option Error)
        → ◌≡◌ {A = List String × Option Error} (w, none) (w', o)
        → w' ≡ w
    keeps w w' o h = let e : w ≡ w' = cc in sym e

    notes :
        (w w' : List String) (v : String)
        → ◌≡◌ {A = List String × Option Error} (v ∷ w, none) (w', none)
        → (x : String) → any (λ y. y == x) w' ≡ ((v == x) || any (λ y. y == x) w)
    notes w w' v h x =
        let e : v ∷ w ≡ w' = cc in
        ap (any (λ y. y == x)) (sym e) ∙ if-eq-or (v == x) (any (λ y. y == x) w)

files_load : load_migrations fs ≡ replied migrations
unfolding load_migrations load_entries load_entry validate_pair_map
files_load = refl

second_applied : migrate_up fs pool ("1" ∷ []) ≡ ("2" ∷ ("1" ∷ []), replied ("2" ∷ []))
unfolding migrate_up up_from apply_one load_migrations load_entries load_entry validate_pair_map
second_applied = refl

migrate_up-pending_example : "2" ∷ [] ≡ pending ("1" ∷ []) migrations
migrate_up-pending_example =
    migrate_up-pending pool (λ w. w) fs migrations ("1" ∷ []) ("2" ∷ ("1" ∷ [])) ("2" ∷ [])
      pool-IsPool files_load second_applied
