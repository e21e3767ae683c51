-- ===== src/Migrate/Files.antt =====
-- What the files of the migrations come to.
use rent_auto.Prelude.{
  ◌≡◌, refl, sym, ap, ◌∙◌, String, true, Option, none, some, List, [], ◌∷◌, has, Bool-cases, inl,
  inr, arith, All,
}
use rent_auto.Domain.{Error}
use rent_auto.Delivery.{Reply, failed, replied}
use rent_auto.Migrate.{
  Migration, FileSystem, Loaded, no_files, load_entries, validate_pair_map, validated, loaded_all,
  globbed, load_migrations, assembled,
}

validate_pair_map-All :
    (ups downs : List (String × String))
    → validate_pair_map ups downs ≡ none
    → All (λ d. has ups d.0 ≡ true) downs
unfolding validate_pair_map
validate_pair_map-All ups [] h = tt
validate_pair_map-All ups ((v, sql) ∷ downs) h = elim (Bool-cases (has ups v)) [
  | inl q ↦ (q, validate_pair_map-All ups downs (simp q at h))
  | inr q ↦ absurd (ground (arith, h, q))
]

abbrev pub versions_of : List Migration → List String
versions_of [] = []
versions_of (m ∷ migs) = m.version ∷ versions_of migs

versions_of-assembled : (l : Loaded) (vs : List String) → versions_of (assembled l vs) ≡ vs
versions_of-assembled l [] = refl
versions_of-assembled l (v ∷ vs) = ap (λ xs. v ∷ xs) (versions_of-assembled l vs)

-- what a successful loading has read
pub record Paired (fs : FileSystem) (names : List String) (migs : List Migration) : Type 0 where
  pub files : Loaded
  pub read : load_entries fs names no_files ≡ replied files
  pub no_lone_down : All (λ d. has files.ups d.0 ≡ true) files.downs
  pub in_order : versions_of migs ≡ FileSystem.sort fs files.versions

Paired-validated :
    (fs : FileSystem) (names : List String) (l : Loaded) (o : Option Error) (migs : List Migration)
    → load_entries fs names no_files ≡ replied l
    → validate_pair_map l.ups l.downs ≡ o
    → validated fs l o ≡ replied migs
    → Paired fs names migs
Paired-validated fs names l (some err) migs r v h = cc
Paired-validated fs names l none migs r v h =
    let e : assembled l (FileSystem.sort fs l.versions) ≡ migs = cc in
    record {
      files = l;
      read = r;
      no_lone_down = validate_pair_map-All l.ups l.downs v;
      in_order = ap versions_of (sym e) ∙ versions_of-assembled l (FileSystem.sort fs l.versions);
    }

Paired-loaded_all :
    (fs : FileSystem) (names : List String) (r : Reply Loaded) (migs : List Migration)
    → load_entries fs names no_files ≡ r
    → loaded_all fs r ≡ replied migs
    → Paired fs names migs
Paired-loaded_all fs names (failed err) migs q h = cc
Paired-loaded_all fs names (replied l) migs q h =
    Paired-validated fs names l (validate_pair_map l.ups l.downs) migs q refl h

Paired-globbed :
    (fs : FileSystem) (g : Reply (List String)) (migs : List Migration)
    → globbed fs g ≡ replied migs
    → (names : List String) × (g ≡ replied names) × Paired fs names migs
Paired-globbed fs (failed err) migs h = cc
Paired-globbed fs (replied names) migs h =
    (names, refl, Paired-loaded_all fs names (load_entries fs names no_files) migs refl h)

-- If the migrations load, each version with a script down has one up, and the migrations are those
-- of the versions with a script up, in the order of sort.Strings.
pub load_migrations-Paired :
    (fs : FileSystem) (migs : List Migration)
    → load_migrations fs ≡ replied migs
    → (names : List String) × (FileSystem.glob fs ≡ replied names) × Paired fs names migs
unfolding load_migrations
load_migrations-Paired fs migs h = Paired-globbed fs (FileSystem.glob fs) migs h
