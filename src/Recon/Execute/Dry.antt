-- ===== src/Recon/Execute/Dry.antt =====
-- A dry run.
use rent_auto.Prelude.{◌≡◌, refl, true, false, Option, none, some, List, [], ◌∷◌, ◌∙◌}
use rent_auto.Recon.{Action}
use rent_auto.Recon.Execute.{
  Executor, Adapter, Run, with_adapter, execute_one, execute_from, execute,
}

module _ {W F : Type 0} where
  dry-with_adapter :
      (e : Executor W F) (o : Option (Adapter W F)) (a : Action F) (s : Run W F)
      → e.dry_run ≡ true
      → ((with_adapter e o a s).0.world ≡ s.world) × ((with_adapter e o a s).1 ≡ false)
  dry-with_adapter e none a s h = (refl, refl)
  dry-with_adapter e (some ad) a s h = rw h (refl, refl)

  dry-execute_from :
      (e : Executor W F) (plan : List (Action F)) (s : Run W F)
      → e.dry_run ≡ true
      → ((execute_from e plan s).0.world ≡ s.world) × ((execute_from e plan s).1 ≡ false)
  unfolding execute_from execute_one
  dry-execute_from e [] s h = (refl, refl)
  dry-execute_from e (a ∷ plan) s h =
      let r = with_adapter e (e.adapters a.channel) a s in
      let (same, on) = dry-with_adapter e (e.adapters a.channel) a s h in
      let (same', on') = dry-execute_from e plan r.0 h in simp on (same' ∙ same, on')

  -- A dry run goes through the whole plan and leaves the platforms, the store and the cooldowns as they
  -- were.
  pub execute_dry :
      (e : Executor W F) (plan : List (Action F)) (w : W)
      → e.dry_run ≡ true
      → ((execute e plan w).0.world ≡ w) × ((execute e plan w).1 ≡ false)
  unfolding execute
  execute_dry e plan w h = dry-execute_from e plan _ h
