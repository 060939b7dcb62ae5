-- ===== src/Guard/Outages.antt =====
-- What a run of the process guard (executor/process_guard.go) does to a service between two uses of
-- its own buttons.
use wp_panel_en_private.Base.{
  ◌+◌, ◌≡◌, refl, arith, Bool, true, false, not, some, List, [], ◌∷◌, all, ◌∙◌, subst,
}
use wp_panel_en_private.Base.Text.{Text}
use wp_panel_en_private.Access.Bans.{count_where}
use wp_panel_en_private.Guard.Service.{GuardService, ProcessGuard, find_service}
use wp_panel_en_private.Guard.Steps.{
  Step, checks, ends_round, sets, step, step_all, sets_service, answers, falls, guard_starts,
  effect, starts_in, step-find, step-starts, step-first_run,
}

-- What the answers of systemctl make of a service that is not paused.
abbrev Followed : Text → ProcessGuard → GuardService → List Bool → ProcessGuard → Type 0
Followed n pg s given end =
    (s' : GuardService) × (find_service n end.services ≡ some s')
    × (s'.restarts ≡ falls s.running given + s.restarts)
    × (guard_starts n end.orders ≡ count_where not given + guard_starts n pg.orders)

follow :
    (n : Text) (e : Step) (steps : List Step) (s : GuardService) (pg end : ProcessGuard)
    → s.paused ≡ false
    → guard_starts n (step pg e).orders ≡ starts_in n false e s + guard_starts n pg.orders
    → Followed n (step pg e) (effect n false e s) (answers n steps) end
    → Followed n pg s (answers n (e ∷ steps)) end
follow n ends_round steps s pg end p st (s', found, counted, started) =
    (s', found, counted, omega arith)
follow n (sets a ok active written m) steps s pg end p st (s', found, counted, started) =
    (s', found, counted, omega arith)
follow n (checks db active now m) steps s pg end p st (s', found, counted, started) =
    (s', found, ground arith, ground arith)

effect-paused :
    (n : Text) (first : Bool) (e : Step) (s : GuardService) → (effect n first e s).paused ≡ s.paused
effect-paused n first ends_round s = refl
effect-paused n first (sets a ok active written m) s = refl
effect-paused n first (checks db active now m) s = ground arith

-- A service that is not paused, after the first round. In any run of checks, of this service and of
-- others, of ends of rounds and of the buttons of other services, the restarts counted for it are
-- the times that it is found stopped after it was found running, so a service that stays down counts
-- once; and the loop orders its start exactly at each check that finds it stopped.
pub outages_counted :
    (n : Text) (pg : ProcessGuard) (s : GuardService) (steps : List Step)
    → find_service n pg.services ≡ some s
    → s.paused ≡ false
    → pg.first_run ≡ false
    → all (λ e. not (sets_service n e)) steps ≡ true
    → (s' : GuardService) × (find_service n (step_all pg steps).services ≡ some s')
      × (s'.restarts ≡ falls s.running (answers n steps) + s.restarts)
      × (guard_starts n (step_all pg steps).orders
          ≡ count_where not (answers n steps) + guard_starts n pg.orders)
outages_counted n pg s [] found p first u = (s, found, omega arith, omega arith)
outages_counted n pg s (e ∷ steps) found p first u =
    let other : sets_service n e ≡ false = ground arith in
    let started =
      subst (λ f. guard_starts n (step pg e).orders ≡ starts_in n f e s + guard_starts n pg.orders)
        first (step-starts n e pg s found) in
    let found' =
      subst (λ f. find_service n (step pg e).services ≡ some (effect n f e s)) first
        (step-find n e pg s found other) in
    follow n e steps s pg (step_all (step pg e) steps) p started (
      outages_counted n (step pg e) (effect n false e s) steps found'
        (effect-paused n false e s ∙ p) (step-first_run e pg first) (ground arith))

starts_in-paused :
    (n : Text) (first : Bool) (e : Step) (s : GuardService)
    → s.paused ≡ true
    → starts_in n first e s ≡ 0
starts_in-paused n first ends_round s p = refl
starts_in-paused n first (sets a ok active written m) s p = refl
starts_in-paused n first (checks db active now m) s p = ground arith

-- A service that is paused stays paused, and the loop never orders its start, whatever systemctl
-- answers, in any run without a use of its own buttons.
pub paused_not_started :
    (n : Text) (pg : ProcessGuard) (s : GuardService) (steps : List Step)
    → find_service n pg.services ≡ some s
    → s.paused ≡ true
    → all (λ e. not (sets_service n e)) steps ≡ true
    → (s' : GuardService) × (find_service n (step_all pg steps).services ≡ some s')
      × (s'.paused ≡ true)
      × (guard_starts n (step_all pg steps).orders ≡ guard_starts n pg.orders)
paused_not_started n pg s [] found p u = (s, found, p, refl)
paused_not_started n pg s (e ∷ steps) found p u =
    let first = pg.first_run in
    let (s', found', p', started) =
      paused_not_started n (step pg e) (effect n first e s) steps
        (step-find n e pg s found (ground arith)) (effect-paused n first e s ∙ p) (ground arith) in
    (s', found', p', omega (arith, step-starts n e pg s found, starts_in-paused n first e s p))
