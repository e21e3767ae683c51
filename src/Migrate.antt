-- ===== src/Migrate.antt =====
-- backend/internal/store/migrate.go and migrate_apply.go: the files of the migrations, and applying and rolling back
-- what they hold. The database is a type `W` of states; a transaction works on a state of its own, which the
-- commit puts in place and a rollback drops. Package strings, sort and the embedded files are a record of functions.
pub mod Pending
pub mod Files
use rent_auto.Prelude.{
  ℕ, zero, suc, String, Bool, true, false, not, Option, none, some, List, [], ◌∷◌, ◌++◌, ◌==◌, any,
  lookup, put, has, if◌then◌else◌, text_append,
}
use rent_auto.Domain.{Error}
use rent_auto.Recon.Execute.{plain, wrap}
use rent_auto.Delivery.{Reply, failed, replied}

pub record Migration : Type 0 where
  pub version : String
  pub up_sql : String
  pub down_sql : String

-- fs.Glob, ReadFile, path.Base, strings.HasSuffix, strings.TrimSuffix and sort.Strings
pub record FileSystem : Type 0 where
  pub glob : Reply (List String)
  pub read_file : String → Reply String
  pub base : String → String
  pub has_suffix : String → String → Bool
  pub trim_suffix : String → String → String
  pub sort : List String → List String

-- ups, downs and versions
pub record Loaded : Type 0 where
  pub ups : List (String × String)
  pub downs : List (String × String)
  pub versions : List String

abbrev pub no_files : Loaded
no_files = record { ups = []; downs = []; versions = [] }

abbrev pub add_up : String → String → Loaded → Loaded
add_up ver sql l = record l {
  versions = if has l.ups ver then l.versions else l.versions ++ (ver ∷ []);
  ups = put l.ups ver sql;
}

abbrev pub add_down : String → String → Loaded → Loaded
add_down ver sql l = record l { downs = put l.downs ver sql }

abbrev pub bad_name : String → Error
bad_name base =
    plain (text_append "migration \"" (text_append base "\" must end with .up.sql or .down.sql"))

-- one file: its version and whether it goes up, or an error
abbrev pub classified : FileSystem → String → String → Reply (String × Bool)
classified fs base stem =
    if FileSystem.has_suffix fs stem ".up"
    then replied (FileSystem.trim_suffix fs stem ".up", true)
    else if FileSystem.has_suffix fs stem ".down"
    then replied (FileSystem.trim_suffix fs stem ".down", false)
    else failed (bad_name base)

abbrev pub stored : String → Bool → String → Loaded → Loaded
stored ver true sql l = add_up ver sql l
stored ver false sql l = add_down ver sql l

abbrev pub read_entry : String → String → Bool → Reply String → Loaded → Reply Loaded
read_entry base ver up (failed err) l = failed (wrap (text_append "read " base) err)
read_entry base ver up (replied sql) l = replied (stored ver up sql l)

abbrev pub entry_classified :
    FileSystem → String → String → Reply (String × Bool) → Loaded → Reply Loaded
entry_classified fs name base (failed err) l = failed err
entry_classified fs name base (replied (ver, up)) l =
    read_entry base ver up (FileSystem.read_file fs name) l

unfoldable pub load_entry : FileSystem → String → Loaded → Reply Loaded
load_entry fs name l =
    let base = FileSystem.base fs name in
    entry_classified fs name base (classified fs base (FileSystem.trim_suffix fs base ".sql")) l

abbrev pub then_load : (Loaded → Reply Loaded) → Reply Loaded → Reply Loaded
then_load go_on (failed err) = failed err
then_load go_on (replied l) = go_on l

unfoldable pub load_entries : FileSystem → List String → Loaded → Reply Loaded
unfolding load_entry
load_entries fs [] l = replied l
load_entries fs (name ∷ names) l = then_load (λ l'. load_entries fs names l') (load_entry fs name l)

unfoldable pub validate_pair_map : List (String × String) → List (String × String) → Option Error
validate_pair_map ups [] = none
validate_pair_map ups ((v, sql) ∷ downs) =
    let rest = validate_pair_map ups downs in
    if has ups v
    then rest
    else some (
        plain (
          text_append "migration "
            (text_append v " has a down file but no up file (corrupted pair)")))

abbrev pub text_at : List (String × String) → String → String
text_at m v = or_empty (lookup m v)
  where
    or_empty : Option String → String
    or_empty none = ""
    or_empty (some s) = s

abbrev pub assembled : Loaded → List String → List Migration
assembled l [] = []
assembled l (v ∷ versions) =
    record { version = v; up_sql = text_at l.ups v; down_sql = text_at l.downs v }
    ∷ assembled l versions

abbrev pub validated : FileSystem → Loaded → Option Error → Reply (List Migration)
validated fs l (some err) = failed err
validated fs l none = replied (assembled l (FileSystem.sort fs l.versions))

abbrev pub loaded_all : FileSystem → Reply Loaded → Reply (List Migration)
loaded_all fs (failed err) = failed err
loaded_all fs (replied l) = validated fs l (validate_pair_map l.ups l.downs)

abbrev pub globbed : FileSystem → Reply (List String) → Reply (List Migration)
globbed fs (failed err) = failed (wrap "glob migrations" err)
globbed fs (replied names) = loaded_all fs (load_entries fs names no_files)

unfoldable pub load_migrations : FileSystem → Reply (List Migration)
unfolding load_entries validate_pair_map
load_migrations fs = globbed fs (FileSystem.glob fs)

-- the pool: the DDL of schema_migrations, the query of its versions in their order, and the statements of a transaction
pub record Pool (W : Type 0) : Type 0 where
  pub ensure : W → W × Option Error
  pub applied : W → Reply (List String)
  pub begin : W → Option Error
  pub exec : W → String → W × Option Error
  pub insert_version : W → String → W × Option Error
  pub delete_version : W → String → W × Option Error
  pub commit : W → Option Error

-- byVer
abbrev pub by_version : List Migration → List (String × Migration) → List (String × Migration)
by_version [] m = m
by_version (g ∷ migs) m = by_version migs (put m g.version g)

abbrev pub reversed : List String → List String → List String
reversed [] out = out
reversed (v ∷ versions) out = reversed versions (v ∷ out)

abbrev pub ended : {W : Type 0} → W → W → Option Error → W × Option Error
ended w tx (some err) = (w, some err)
ended w tx none = (tx, none)

module _ {W : Type 0} where
  abbrev pub committed : Pool W → W → W × Option Error → String → W × Option Error
  committed p w (tx, some err) text = (w, some (wrap text err))
  committed p w (tx, none) text = ended w tx (Pool.commit p tx)

  -- one transaction: a script, and then the note of it
  abbrev pub scripted :
      Pool W → W → (W → W × Option Error) → String → String → W × Option Error → W × Option Error
  scripted p w note text note_text (tx, some err) = (w, some (wrap text err))
  scripted p w note text note_text (tx, none) = committed p w (note tx) note_text

  abbrev pub in_transaction :
      Pool W
      → W
      → String
      → (W → W × Option Error)
      → String
      → String
      → Option Error
      → W × Option Error
  in_transaction p w sql note text note_text (some err) = (w, some err)
  in_transaction p w sql note text note_text none =
      scripted p w note text note_text (Pool.exec p w sql)

  unfoldable pub apply_one : Pool W → W → Migration → W × Option Error
  apply_one p w m =
      in_transaction p w m.up_sql (λ tx. Pool.insert_version p tx m.version)
        (text_append "apply " (text_append m.version " up")) (text_append "record " m.version)
        (Pool.begin p w)

  abbrev pub up_next :
      String
      → List String
      → (W → List String → W × Reply (List String))
      → W × Option Error
      → W × Reply (List String)
  up_next v newly go_on (w, some err) = (w, failed err)
  up_next v newly go_on (w, none) = go_on w (newly ++ (v ∷ []))

  unfoldable pub up_from :
      Pool W → List String → List Migration → W → List String → W × Reply (List String)
  unfolding apply_one
  up_from p applied [] w newly = (w, replied newly)
  up_from p applied (m ∷ migs) w newly =
      if any (λ v. v == m.version) applied
      then up_from p applied migs w newly
      else up_next m.version newly (λ w' n. up_from p applied migs w' n) (apply_one p w m)

  abbrev pub up_applied :
      Pool W → List Migration → W → Reply (List String) → W × Reply (List String)
  up_applied p migs w (failed err) = (w, failed err)
  up_applied p migs w (replied applied) = up_from p applied migs w []

  abbrev pub up_ensured : Pool W → List Migration → W × Option Error → W × Reply (List String)
  up_ensured p migs (w, some err) = (w, failed (wrap "ensure schema_migrations" err))
  up_ensured p migs (w, none) = up_applied p migs w (Pool.applied p w)

  abbrev pub up_loaded : Pool W → W → Reply (List Migration) → W × Reply (List String)
  up_loaded p w (failed err) = (w, failed err)
  up_loaded p w (replied migs) = up_ensured p migs (Pool.ensure p w)

  unfoldable pub migrate_up : FileSystem → Pool W → W → W × Reply (List String)
  unfolding load_migrations up_from
  migrate_up fs p w = up_loaded p w (load_migrations fs)

  unfoldable pub roll_back_one : Pool W → W → Migration → W × Option Error
  roll_back_one p w m =
      in_transaction p w m.down_sql (λ tx. Pool.delete_version p tx m.version)
        (text_append "apply " (text_append m.version " down")) (text_append "unrecord " m.version)
        (Pool.begin p w)

  abbrev pub down_found :
      Pool W
      → W
      → String
      → List String
      → (W → List String → W × Reply (List String))
      → Option Migration
      → W × Reply (List String)
  down_found p w v rolled go_on none =
      (w, failed (plain (text_append "applied version " (text_append v " has no local file"))))
  down_found p w v rolled go_on (some m) =
      if m.down_sql == ""
      then (w, failed (plain (text_append "version " (text_append v " has no down migration"))))
      else up_next v rolled go_on (roll_back_one p w m)

  -- the versions that are applied, the newest first, and the number still to roll back
  unfoldable pub down_from :
      Pool W
      → List (String × Migration)
      → ℕ
      → List String
      → W
      → List String
      → W × Reply (List String)
  unfolding roll_back_one
  down_from p by_ver n [] w rolled = (w, replied rolled)
  down_from p by_ver zero (v ∷ versions) w rolled = (w, replied rolled)
  down_from p by_ver (suc n) (v ∷ versions) w rolled =
      down_found p w v rolled (λ w' r. down_from p by_ver n versions w' r) (lookup by_ver v)

  abbrev pub down_applied :
      Pool W → List Migration → ℕ → W → Reply (List String) → W × Reply (List String)
  down_applied p migs n w (failed err) = (w, failed err)
  down_applied p migs n w (replied applied) =
      down_from p (by_version migs []) n (reversed applied []) w []

  abbrev pub down_loaded : Pool W → ℕ → W → Reply (List Migration) → W × Reply (List String)
  down_loaded p n w (failed err) = (w, failed err)
  down_loaded p n w (replied migs) = down_applied p migs n w (Pool.applied p w)

  unfoldable pub migrate_down : FileSystem → Pool W → ℕ → W → W × Reply (List String)
  unfolding load_migrations down_from
  migrate_down fs p n w = down_loaded p n w (load_migrations fs)
