-- ===== src/Migrate/Pending.antt =====
-- Which migrations are applied and rolled back.
use rent_auto.Prelude.{
  ℕ, zero, suc, ◌≡◌, refl, sym, ap, ◌∙◌, String, text_append, Bool, true, ◌||◌, Option, none, some,
  List, [], ◌∷◌, ◌++◌, ◌==◌, any, lookup, take, append_assoc, append-nil, if◌then◌else◌, Bool-cases,
  inl, inr, arith, All, All-map, eq_refl,
}
use rent_auto.Domain.{Error}
use rent_auto.Delivery.{Reply, failed, replied}
use rent_auto.Migrate.{
  Migration, FileSystem, Pool, ended, committed, scripted, in_transaction, apply_one, up_next,
  up_from, up_applied, up_ensured, migrate_up, load_migrations, by_version, reversed, roll_back_one,
  down_found, down_from, down_applied, migrate_down,
}

-- the versions of the migrations that are not applied
abbrev pub pending : List String → List Migration → List String
pending applied [] = []
pending applied (m ∷ migs) =
    if any (λ v. v == m.version) applied
    then pending applied migs
    else m.version ∷ pending applied migs

-- What the code relies on: creating the table, running a script and committing leave the versions
-- that are noted as they are, and noting a version adds it and nothing else.
pub record IsPool {W : Type 0} (p : Pool W) (noted : W → List String) : Type 0 where
  pub applied_noted : (w : W) (l : List String) → Pool.applied p w ≡ replied l → l ≡ noted w
  pub ensure_keeps : (w w' : W) (o : Option Error) → Pool.ensure p w ≡ (w', o) → noted w' ≡ noted w
  pub exec_keeps : (w w' : W) (sql : String) → Pool.exec p w sql ≡ (w', none) → noted w' ≡ noted w
  pub insert_notes :
      (w w' : W) (v : String)
      → Pool.insert_version p w v ≡ (w', none)
      → (x : String) → any (λ y. y == x) (noted w') ≡ ((v == x) || any (λ y. y == x) (noted w))

up_next-eq :
    {W : Type 0} (v : String) (newly rest out : List String)
    (go_on : W → List String → W × Reply (List String)) (r : W × Option Error)
    → ((w : W) → (go_on w (newly ++ (v ∷ []))).1 ≡ replied out → out ≡ (newly ++ (v ∷ [])) ++ rest)
    → (up_next v newly go_on r).1 ≡ replied out
    → out ≡ newly ++ (v ∷ rest)
up_next-eq v newly rest out go_on (w, some err) f h = cc
up_next-eq v newly rest out go_on (w, none) f h = f w h ∙ append_assoc newly (v ∷ []) rest

up_from-eq :
    {W : Type 0} (p : Pool W) (applied : List String) (migs : List Migration) (w : W)
    (newly out : List String)
    → (up_from p applied migs w newly).1 ≡ replied out
    → out ≡ newly ++ pending applied migs
unfolding up_from
up_from-eq p applied [] w newly out h = let e : newly ≡ out = cc in sym e ∙ sym (append-nil newly)
up_from-eq p applied (m ∷ migs) w newly out h =
    elim (Bool-cases (any (λ v. v == m.version) applied)) [
      | inl old ↦ simp old (up_from-eq p applied migs w newly out (simp old at h))
      | inr fresh ↦ simp fresh (
          up_next-eq m.version newly (pending applied migs) out
            (λ w' n. up_from p applied migs w' n) (apply_one p w m)
            (λ w'. up_from-eq p applied migs w' (newly ++ (m.version ∷ [])) out) (simp fresh at h))
    ]

module _ {W : Type 0} (p : Pool W) (noted : W → List String) (laws : IsPool p noted) where
  committed-notes :
      (w w' : W) (m : Migration) (o : W × Option Error) (tx : W) (text : String)
      → Pool.insert_version p tx m.version ≡ o
      → committed p w o text ≡ (w', none)
      → (x : String)
      → any (λ y. y == x) (noted w') ≡ ((m.version == x) || any (λ y. y == x) (noted tx))
  committed-notes w w' m (tx', some err) tx text q h = cc
  committed-notes w w' m (tx', none) tx text q h = ends (Pool.commit p tx') h
    where
      ends :
          (c : Option Error)
          → ended w tx' c ≡ (w', none)
          → (x : String)
          → any (λ y. y == x) (noted w') ≡ ((m.version == x) || any (λ y. y == x) (noted tx))
      ends (some err) k = cc
      ends none k = λ x. laws.insert_notes tx w' m.version (q ∙ k) x

  scripted-notes :
      (w w' : W) (m : Migration) (o : W × Option Error) (text note_text : String)
      → Pool.exec p w m.up_sql ≡ o
      → scripted p w (λ tx. Pool.insert_version p tx m.version) text note_text o ≡ (w', none)
      → (x : String)
      → any (λ y. y == x) (noted w') ≡ ((m.version == x) || any (λ y. y == x) (noted w))
  scripted-notes w w' m (tx, some err) text note_text q h = cc
  scripted-notes w w' m (tx, none) text note_text q h = λ x.
      committed-notes w w' m (Pool.insert_version p tx m.version) tx note_text refl h x
      ∙ ap (λ l. (m.version == x) || any (λ y. y == x) l) (laws.exec_keeps w tx m.up_sql q)

  apply_one-notes :
      (w w' : W) (m : Migration)
      → apply_one p w m ≡ (w', none)
      → (x : String)
      → any (λ y. y == x) (noted w') ≡ ((m.version == x) || any (λ y. y == x) (noted w))
  unfolding apply_one
  apply_one-notes w w' m h = begun (Pool.begin p w) h
    where
      begun :
          (o : Option Error)
          → in_transaction p w m.up_sql
              (λ tx. Pool.insert_version p tx m.version)
              (text_append "apply " (text_append m.version " up"))
              (text_append "record " m.version)
              o
            ≡ (w', none)
          → (x : String)
          → any (λ y. y == x) (noted w') ≡ ((m.version == x) || any (λ y. y == x) (noted w))
      begun (some err) k = cc
      begun none k = scripted-notes w w' m (Pool.exec p w m.up_sql) _ _ refl k

  -- after the loop the versions in `want` are noted, and those that were are
  abbrev Notes : List String → W → W → Type 0
  Notes want w w' =
      (x : String)
      → any (λ y. y == x) (noted w') ≡ (any (λ y. y == x) want || any (λ y. y == x) (noted w))

  Notes-up_next :
      (w w' : W) (m : Migration) (newly rest out : List String)
      (go_on : W → List String → W × Reply (List String)) (r : W × Option Error)
      → apply_one p w m ≡ r
      → ((v : W) → go_on v (newly ++ (m.version ∷ [])) ≡ (w', replied out) → Notes rest v w')
      → up_next m.version newly go_on r ≡ (w', replied out)
      → Notes (m.version ∷ rest) w w'
  Notes-up_next w w' m newly rest out go_on (v, some err) q f h = cc
  Notes-up_next w w' m newly rest out go_on (v, none) q f h =
      λ x. let a = f v h x in let b = apply_one-notes w v m q x in ground (arith, a, b)

  Notes-up_from :
      (applied : List String) (migs : List Migration) (w w' : W) (newly out : List String)
      → up_from p applied migs w newly ≡ (w', replied out)
      → Notes (pending applied migs) w w'
  unfolding up_from
  Notes-up_from applied [] w w' newly out h = λ x. ap (λ r. any (λ y. y == x) (noted r.0)) (sym h)
  Notes-up_from applied (m ∷ migs) w w' newly out h =
      elim (Bool-cases (any (λ v. v == m.version) applied)) [
        | inl old ↦ simp old (Notes-up_from applied migs w w' newly out (simp old at h))
        | inr fresh ↦ simp fresh (
            Notes-up_next w w' m newly (pending applied migs) out
              (λ v n. up_from p applied migs v n) (apply_one p w m) refl
              (λ v. Notes-up_from applied migs v w' (newly ++ (m.version ∷ [])) out)
              (simp fresh at h))
      ]

abbrev names : String → List String → Bool
names x versions = any (λ y. y == x) versions

pending-or :
    (l : List String) (migs : List Migration)
    → All (λ m. (names m.version (pending l migs) || names m.version l) ≡ true) migs
pending-or l [] = tt
pending-or l (m ∷ migs) = elim (Bool-cases (names m.version l)) [
  | inl old ↦
      let e : pending l (m ∷ migs) ≡ pending l migs = simp old refl in
      (
        ground (arith, old),
        All-map migs (λ g h. ap (λ xs. names g.version xs || names g.version l) e ∙ h)
            (pending-or l migs),
      )
  | inr fresh ↦
      let e : pending l (m ∷ migs) ≡ m.version ∷ pending l migs = simp fresh refl in
      (
        ap (λ xs. names m.version xs || names m.version l) e ∙ ground (arith, eq_refl m.version),
        All-map migs
            (λ g h. ap (λ xs. names g.version xs || names g.version l) e ∙ ground (arith, h))
            (pending-or l migs),
      )
]

pending-nil :
    (l : List String) (migs : List Migration)
    → All (λ m. names m.version l ≡ true) migs
    → pending l migs ≡ []
pending-nil l [] _ = refl
pending-nil l (m ∷ migs) (h, hs) = simp h (pending-nil l migs hs)

module _ {W : Type 0} (p : Pool W) where
  -- a run that succeeds made the table, read the versions and went through the loop
  record Ran (migs : List Migration) (w w' : W) (out : List String) : Type 0 where
    at : W
    versions : List String
    ensured : Pool.ensure p w ≡ (at, none)
    read : Pool.applied p at ≡ replied versions
    looped : up_from p versions migs at [] ≡ (w', replied out)

  Ran-up_ensured :
      (migs : List Migration) (w w' : W) (out : List String) (o : W × Option Error)
      → Pool.ensure p w ≡ o
      → up_ensured p migs o ≡ (w', replied out)
      → Ran migs w w' out
  Ran-up_ensured migs w w' out (w1, some err) q h = cc
  Ran-up_ensured migs w w' out (w1, none) q h = by_query (Pool.applied p w1) refl h
    where
      by_query :
          (r : Reply (List String))
          → Pool.applied p w1 ≡ r
          → up_applied p migs w1 r ≡ (w', replied out)
          → Ran migs w w' out
      by_query (failed err) k u = cc
      by_query (replied l) k u = record { at = w1; versions = l; ensured = q; read = k; looped = u }

  Ran-migrate_up :
      (fs : FileSystem) (migs : List Migration) (w w' : W) (out : List String)
      → load_migrations fs ≡ replied migs
      → migrate_up fs p w ≡ (w', replied out)
      → Ran migs w w' out
  unfolding migrate_up
  Ran-migrate_up fs migs w w' out load h =
      Ran-up_ensured migs w w' out (Pool.ensure p w) refl (simp load at h)

  -- A run of the migrations that succeeds reports, in their order, exactly the versions that were not
  -- applied before it.
  pub migrate_up-pending :
      (noted : W → List String) (fs : FileSystem) (migs : List Migration) (w w' : W)
      (out : List String)
      → IsPool p noted
      → load_migrations fs ≡ replied migs
      → migrate_up fs p w ≡ (w', replied out)
      → out ≡ pending (noted w) migs
  migrate_up-pending noted fs migs w w' out laws load h =
      let r = Ran-migrate_up fs migs w w' out load h in
      up_from-eq p r.versions migs r.at [] out (ap (λ x. x.1) r.looped)
      ∙ ap (λ l. pending l migs)
          (laws.applied_noted r.at r.versions r.read ∙ laws.ensure_keeps w r.at none r.ensured)

  -- Running the migrations again after a success applies nothing.
  pub migrate_up_twice :
      (noted : W → List String) (fs : FileSystem) (migs : List Migration) (w w' w'' : W)
      (out again : List String)
      → IsPool p noted
      → load_migrations fs ≡ replied migs
      → migrate_up fs p w ≡ (w', replied out)
      → migrate_up fs p w' ≡ (w'', replied again)
      → again ≡ []
  migrate_up_twice noted fs migs w w' w'' out again laws load h k =
      let r = Ran-migrate_up fs migs w w' out load h in
      let known : r.versions ≡ noted r.at = laws.applied_noted r.at r.versions r.read in
      let notes = Notes-up_from p noted laws r.versions migs r.at w' [] out r.looped in
      migrate_up-pending noted fs migs w' w'' again laws load k
      ∙ pending-nil (noted w') migs (
          All-map migs
            (λ m q.
              notes m.version
              ∙ (ap (λ l. names m.version (pending r.versions migs) || names m.version l)
                    (sym known)
                  ∙ q))
            (pending-or r.versions migs))

  -- the newest `n` versions, each with a script to roll it back
  down_next-eq :
      (v : String) (rolled rest out : List String)
      (go_on : W → List String → W × Reply (List String)) (w : W) (o : Option Migration)
      → ((w' : W)
          → (go_on w' (rolled ++ (v ∷ []))).1 ≡ replied out
          → out ≡ (rolled ++ (v ∷ [])) ++ rest)
      → (down_found p w v rolled go_on o).1 ≡ replied out
      → out ≡ rolled ++ (v ∷ rest)
  down_next-eq v rolled rest out go_on w none f h = cc
  down_next-eq v rolled rest out go_on w (some m) f h = elim (Bool-cases (m.down_sql == "")) [
    | inl empty ↦ absurd (ground (arith, h, empty))
    | inr script ↦ up_next-eq v rolled rest out go_on (roll_back_one p w m) f (simp script at h)
  ]

  down_from-eq :
      (by_ver : List (String × Migration)) (n : ℕ) (versions : List String) (w : W)
      (rolled out : List String)
      → (down_from p by_ver n versions w rolled).1 ≡ replied out
      → out ≡ rolled ++ take n versions
  unfolding down_from
  down_from-eq by_ver zero [] w rolled out h =
      let e : rolled ≡ out = cc in sym e ∙ sym (append-nil rolled)
  down_from-eq by_ver (suc n) [] w rolled out h =
      let e : rolled ≡ out = cc in sym e ∙ sym (append-nil rolled)
  down_from-eq by_ver zero (v ∷ versions) w rolled out h =
      let e : rolled ≡ out = cc in sym e ∙ sym (append-nil rolled)
  down_from-eq by_ver (suc n) (v ∷ versions) w rolled out h =
      down_next-eq v rolled (take n versions) out (λ w' r. down_from p by_ver n versions w' r) w
        (lookup by_ver v) (λ w'. down_from-eq by_ver n versions w' (rolled ++ (v ∷ [])) out) h

  down_applied-eq :
      (migs : List Migration) (n : ℕ) (w : W) (o : Reply (List String)) (out : List String)
      → (down_applied p migs n w o).1 ≡ replied out
      → (l : List String) × (o ≡ replied l) × (out ≡ take n (reversed l []))
  down_applied-eq migs n w (failed err) out h = cc
  down_applied-eq migs n w (replied l) out h =
      (l, refl, down_from-eq (by_version migs []) n (reversed l []) w [] out h)

  -- Rolling back `n` migrations, where it succeeds, rolls back the last `n` of the applied versions, or
  -- all if there are fewer, the last one first.
  pub migrate_down-newest :
      (fs : FileSystem) (migs : List Migration) (n : ℕ) (w : W) (out : List String)
      → load_migrations fs ≡ replied migs
      → (migrate_down fs p n w).1 ≡ replied out
      → (l : List String) × (Pool.applied p w ≡ replied l) × (out ≡ take n (reversed l []))
  unfolding migrate_down
  migrate_down-newest fs migs n w out load h =
      down_applied-eq migs n w (Pool.applied p w) out (simp load at h)
