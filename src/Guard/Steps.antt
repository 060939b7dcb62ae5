-- ===== src/Guard/Steps.antt =====
-- The steps of a run of the process guard (executor/process_guard.go), and what one step does to one
-- service.
use wp_panel_en_private.Base.{
  ℕ, ◌+◌, ◌≡◌, refl, arith, Bool, true, false, not, ◌&&◌, some, List, [], ◌∷◌, if◌then◌else◌,
  one_if, Bool-cases, inl, inr, ◌∙◌, sym, subst, Option-cases,
}
use wp_panel_en_private.Base.Text.{Text, text_eq, eq-text_eq}
use wp_panel_en_private.Guard.Service.{
  GuardService, Action, start, stop, restart, other, Order, guard_start, user_order, ProcessGuard,
  IncidentDb, find_service, update_service, check, checked_service, end_round, set_service_state,
  save_paused, act, set_flags, set_paused,
}

-- One part of the program's run that holds the mutex, with the answers of systemctl and of the disk.
pub data Step : Type 0 where
  checks : IncidentDb → Bool → ℕ → Text → Step
  ends_round : Step
  sets : Action → Bool → Bool → Bool → Text → Step

unfoldable pub step : ProcessGuard → Step → ProcessGuard
unfolding check end_round set_service_state
step pg (checks db active now n) = check db active now n pg
step pg ends_round = end_round pg
step pg (sets a ok active written n) = (set_service_state a ok active written n pg).0

abbrev pub step_all : ProcessGuard → List Step → ProcessGuard
step_all pg [] = pg
step_all pg (e ∷ steps) = step_all (step pg e) steps

-- A use of the buttons for the service.
abbrev pub sets_service : Text → Step → Bool
sets_service n (checks db active now m) = false
sets_service n ends_round = false
sets_service n (sets a ok active written m) = text_eq m n

-- What systemctl said of the service in the checks of a run.
abbrev pub answers : Text → List Step → List Bool
answers n [] = []
answers n (checks db active now m ∷ steps) =
    let rest = answers n steps in if text_eq m n then active ∷ rest else rest
answers n (ends_round ∷ steps) = answers n steps
answers n (sets a ok active written m ∷ steps) = answers n steps

-- How often a service that ran is found stopped.
abbrev pub falls : Bool → List Bool → ℕ
falls running [] = 0
falls running (active ∷ rest) = one_if (running && not active) + falls active rest

-- The orders of the loop to start the service.
abbrev pub guard_starts : Text → List Order → ℕ
guard_starts n [] = 0
guard_starts n (guard_start m ∷ orders) = one_if (text_eq m n) + guard_starts n orders
guard_starts n (user_order a m ∷ orders) = guard_starts n orders

pub find_service-name :
    (n : Text) (services : List GuardService) (s : GuardService)
    → find_service n services ≡ some s
    → text_eq s.service_name n ≡ true
find_service-name n [] s h = cc
find_service-name n (x ∷ services) s h = elim (Bool-cases (text_eq x.service_name n)) [
  | inl same ↦ ground arith
  | inr differs ↦ find_service-name n services s (ground arith)
]

find-update_service-same :
    (n : Text) (f : GuardService → GuardService) (services : List GuardService) (s : GuardService)
    → ((x : GuardService) → (f x).service_name ≡ x.service_name)
    → find_service n services ≡ some s
    → find_service n (update_service n f services) ≡ some (f s)
find-update_service-same n f [] s keeps h = cc
find-update_service-same n f (x ∷ services) s keeps h =
    elim (Bool-cases (text_eq x.service_name n)) [
      | inl same ↦ ground (arith, keeps x)
      | inr differs ↦ ground (arith, find-update_service-same n f services s keeps)
    ]

find-update_service-other :
    (n m : Text) (f : GuardService → GuardService) (services : List GuardService)
    → ((x : GuardService) → (f x).service_name ≡ x.service_name)
    → text_eq m n ≡ false
    → find_service n (update_service m f services) ≡ find_service n services
find-update_service-other n m f [] keeps h = refl
find-update_service-other n m f (x ∷ services) keeps h =
    elim (Bool-cases (text_eq x.service_name m)) [
      | inl same ↦ ground (arith, keeps x, eq-text_eq x.service_name m)
      | inr differs ↦ ground (arith, find-update_service-other n m f services keeps)
    ]

checked_service-name :
    (first active : Bool) (now : ℕ) (s : GuardService)
    → (checked_service first active now s).service_name ≡ s.service_name
checked_service-name first active now s = ground arith

-- What a step that is no button of the service does to it.
abbrev pub effect : Text → Bool → Step → GuardService → GuardService
effect n first (checks db active now m) s =
    if text_eq m n then checked_service first active now s else s
effect n first ends_round s = s
effect n first (sets a ok active written m) s = s

-- How often the step makes the loop start the service.
abbrev pub starts_in : Text → Bool → Step → GuardService → ℕ
starts_in n first (checks db active now m) s =
    one_if (text_eq m n && (not s.paused && not active && not first))
starts_in n first ends_round s = 0
starts_in n first (sets a ok active written m) s = 0

check-find_same :
    (db : IncidentDb) (active : Bool) (now : ℕ) (n : Text) (pg : ProcessGuard) (s : GuardService)
    → find_service n pg.services ≡ some s
    → find_service n (check db active now n pg).services
      ≡ some (checked_service pg.first_run active now s)
unfolding check
check-find_same db active now n pg s h =
    rw (check, h)
      (find-update_service-same n (checked_service pg.first_run active now) pg.services s
        (checked_service-name pg.first_run active now) h)

check-find_other :
    (db : IncidentDb) (active : Bool) (now : ℕ) (n m : Text) (pg : ProcessGuard)
    → text_eq m n ≡ false
    → find_service n (check db active now m pg).services ≡ find_service n pg.services
unfolding check
check-find_other db active now n m pg differs = elim (Option-cases (find_service m pg.services)) [
  | inl e ↦ rw (check, e) refl
  | inr (t, e) ↦
      rw (check, e)
        (find-update_service-other n m (checked_service pg.first_run active now) pg.services
          (checked_service-name pg.first_run active now) differs)
]

check-find :
    (db : IncidentDb) (active : Bool) (now : ℕ) (n m : Text) (pg : ProcessGuard) (s : GuardService)
    → find_service n pg.services ≡ some s
    → find_service n (check db active now m pg).services
      ≡ some (if text_eq m n then checked_service pg.first_run active now s else s)
check-find db active now n m pg s h = elim (Bool-cases (text_eq m n)) [
  | inl same ↦ rw same (
      subst
        (λ k.
          find_service n (check db active now k pg).services
          ≡ some (checked_service pg.first_run active now s))
        (sym (eq-text_eq m n same)) (check-find_same db active now n pg s h))
  | inr differs ↦ rw differs (check-find_other db active now n m pg differs ∙ h)
]

act-find :
    (a : Action) (ok active written : Bool) (n m : Text) (pg : ProcessGuard)
    → text_eq m n ≡ false
    → find_service n (act a ok active written m pg).0.services ≡ find_service n pg.services
unfolding save_paused
act-find start true active written n m pg h =
    ground (arith, find-update_service-other n m (set_flags false active) pg.services (λ x. refl) h)
act-find start false active written n m pg h = refl
act-find stop true active written n m pg h =
    ground (arith, find-update_service-other n m (set_flags true false) pg.services (λ x. refl) h)
act-find stop false active written n m pg h =
    find-update_service-other n m (set_paused false) pg.services (λ x. refl) h
act-find restart true active written n m pg h =
    ground (arith, find-update_service-other n m (set_flags false active) pg.services (λ x. refl) h)
act-find restart false active written n m pg h = refl
act-find other ok active written n m pg h = ground arith

sets-find :
    (a : Action) (ok active written : Bool) (n m : Text) (pg : ProcessGuard)
    → text_eq m n ≡ false
    → find_service n (set_service_state a ok active written m pg).0.services
      ≡ find_service n pg.services
unfolding set_service_state
sets-find a ok active written n m pg h = elim (Option-cases (find_service m pg.services)) [
  | inl e ↦ rw (set_service_state, e) refl
  | inr (t, e) ↦ rw (set_service_state, e) (act-find a ok active written n m pg h)
]

pub step-find :
    (n : Text) (e : Step) (pg : ProcessGuard) (s : GuardService)
    → find_service n pg.services ≡ some s
    → sets_service n e ≡ false
    → find_service n (step pg e).services ≡ some (effect n pg.first_run e s)
unfolding step end_round
step-find n (checks db active now m) pg s h u = check-find db active now n m pg s h
step-find n ends_round pg s h u = h
step-find n (sets a ok active written m) pg s h u = sets-find a ok active written n m pg u ∙ h

act-starts :
    (a : Action) (ok active written : Bool) (n m : Text) (pg : ProcessGuard)
    → guard_starts n (set_service_state a ok active written m pg).0.orders
      ≡ guard_starts n pg.orders
unfolding set_service_state save_paused
act-starts a ok active written n m pg = elim (Option-cases (find_service m pg.services)) [
  | inl e ↦ rw (set_service_state, e) refl
  | inr (t, e) ↦ rw (set_service_state, e) (by_action a)
]
  where
    by_action :
        (a : Action)
        → guard_starts n (act a ok active written m pg).0.orders ≡ guard_starts n pg.orders
    by_action start = ground arith
    by_action stop = ground arith
    by_action restart = ground arith
    by_action other = ground arith

check-starts_same :
    (db : IncidentDb) (active : Bool) (now : ℕ) (n : Text) (pg : ProcessGuard) (s : GuardService)
    → find_service n pg.services ≡ some s
    → guard_starts n (check db active now n pg).orders
      ≡ one_if (not s.paused && not active && not pg.first_run) + guard_starts n pg.orders
unfolding check
check-starts_same db active now n pg s h =
    rw (check, h) (ground (arith, find_service-name n pg.services s h))

check-starts_other :
    (db : IncidentDb) (active : Bool) (now : ℕ) (n m : Text) (pg : ProcessGuard)
    → text_eq m n ≡ false
    → guard_starts n (check db active now m pg).orders ≡ guard_starts n pg.orders
unfolding check
check-starts_other db active now n m pg differs = elim (Option-cases (find_service m pg.services)) [
  | inl e ↦ rw (check, e) refl
  | inr (t, e) ↦
      let name = eq-text_eq t.service_name m (find_service-name m pg.services t e) in
      let other_name : text_eq t.service_name n ≡ false = cc (name, differs) in
      rw (check, e) (ground (arith, other_name))
]

pub step-starts :
    (n : Text) (e : Step) (pg : ProcessGuard) (s : GuardService)
    → find_service n pg.services ≡ some s
    → guard_starts n (step pg e).orders ≡ starts_in n pg.first_run e s + guard_starts n pg.orders
unfolding step end_round
step-starts n ends_round pg s h = omega arith
step-starts n (sets a ok active written m) pg s h =
    omega (arith, act-starts a ok active written n m pg)
step-starts n (checks db active now m) pg s h = elim (Bool-cases (text_eq m n)) [
  | inl same ↦ rw same (
      subst
        (λ k.
          guard_starts n (check db active now k pg).orders
          ≡ one_if (not s.paused && not active && not pg.first_run) + guard_starts n pg.orders)
        (sym (eq-text_eq m n same)) (check-starts_same db active now n pg s h))
  | inr differs ↦ rw differs (omega (arith, check-starts_other db active now n m pg differs))
]

pub step-first_run :
    (e : Step) (pg : ProcessGuard) → pg.first_run ≡ false → (step pg e).first_run ≡ false
unfolding step end_round save_paused
step-first_run ends_round pg h = refl
step-first_run (checks db active now m) pg h = elim (Option-cases (find_service m pg.services)) [
  | inl e ↦ rw (step, check, e) h
  | inr (t, e) ↦ rw (step, check, e) h
]
step-first_run (sets a ok active written m) pg h =
    elim (Option-cases (find_service m pg.services)) [
      | inl e ↦ rw (step, set_service_state, e) h
      | inr (t, e) ↦ rw (step, set_service_state, e) (by_action a ok)
    ]
  where
    by_action : (a : Action) (ok : Bool) → (act a ok active written m pg).0.first_run ≡ false
    by_action start ok = ground arith
    by_action stop ok = ground arith
    by_action restart ok = ground arith
    by_action other ok = ground arith
