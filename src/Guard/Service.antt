-- ===== src/Guard/Service.antt =====
-- The services of `ProcessGuard` (executor/process_guard.go) and its operations, one function for each
-- part that runs under the mutex. What systemctl and the database answer comes as arguments.
use wp_panel_en_private.Base.{
  ℕ, suc, Bool, true, false, not, ◌&&◌, Option, none, some, List, [], ◌∷◌, ◌++◌, if◌then◌else◌,
  take, map,
}
use wp_panel_en_private.Base.Text.{Text, codes, text_eq}

pub record GuardService : Type 0 where
  pub name : Text
  pub service_name : Text
  pub running : Bool
  pub paused : Bool
  pub restarts : ℕ
  pub last_incident : Option ℕ

pub data Action : Type 0 where
  start : Action
  stop : Action
  restart : Action
  other : Action

-- What systemctl was asked to do, by the loop or by `SetServiceState`.
pub data Order : Type 0 where
  guard_start : Text → Order
  user_order : Action → Text → Order

pub record Incident : Type 0 where
  pub service : Text
  pub event : Text
  pub message : Text

-- The file, or none where it cannot be read as a map, is told by the map of names to flags that
-- encoding/json reads from it: how the map is written as text is not modelled. Orders and incidents are newest first.
pub record ProcessGuard : Type 0 where
  pub services : List GuardService
  pub first_run : Bool
  pub paused_file : Option (Text → Option Bool)
  pub orders : List Order
  pub incidents : List Incident

-- Whether there is a database, and whether it inserts the row.
pub record IncidentDb : Type 0 where
  pub present : Bool
  pub inserts : Bool

abbrev stopped : Text → Text → GuardService
stopped name service_name = record {
  name = name;
  service_name = service_name;
  running = false;
  paused = false;
  restarts = 0;
  last_incident = none;
}

unfoldable pub guarded_services : List GuardService
guarded_services =
    stopped (codes "Nginx") (codes "nginx")
    ∷ stopped (codes "PHP-FPM") (codes "php8.3-fpm")
    ∷ stopped (codes "MariaDB") (codes "mariadb")
    ∷ stopped (codes "Redis") (codes "redis-server")
    ∷ stopped (codes "nftables") (codes "nftables")
    ∷ stopped (codes "Fail2ban") (codes "fail2ban")
    ∷ []

-- The loop over the services that stops at the first one of that name. The names are distinct, so the
-- name stands for the pointer.
abbrev pub find_service : Text → List GuardService → Option GuardService
find_service n [] = none
find_service n (s ∷ services) =
    let rest = find_service n services in if text_eq s.service_name n then some s else rest

abbrev pub update_service :
    Text → (GuardService → GuardService) → List GuardService → List GuardService
update_service n f [] = []
update_service n f (s ∷ services) =
    let rest = update_service n f services in
    if text_eq s.service_name n then f s ∷ services else s ∷ rest

-- The flag that the map read from the file gives; a service that is not in it keeps its own.
abbrev pub loaded : (Text → Option Bool) → GuardService → GuardService
loaded file s = record s { paused = elim (file s.service_name) [ none ↦ s.paused | some v ↦ v ] }

unfoldable pub load_paused : ProcessGuard → ProcessGuard
load_paused pg = elim pg.paused_file [
  | none ↦ pg
  | some file ↦ record pg { services = map (loaded file) pg.services }
]

-- The map that the loop fills: a later service of the same name overwrites.
abbrev pub paused_map : List GuardService → Text → Option Bool
paused_map [] n = none
paused_map (s ∷ services) n = elim (paused_map services n) [
  | some v ↦ some v
  | none ↦ if text_eq s.service_name n then some s.paused else none
]

unfoldable pub save_paused : Bool → ProcessGuard → ProcessGuard
save_paused written pg =
    if written then record pg { paused_file = some (paused_map pg.services) } else pg

unfoldable pub prune_incidents : List Incident → List Incident
prune_incidents incidents = take 500 incidents

unfoldable pub log_incident : IncidentDb → List Incident → GuardService → Text → List Incident
unfolding prune_incidents
log_incident db incidents s event =
    let row : Incident = record {
      service = s.name;
      event = event;
      message = s.name ++ codes " process exited abnormally, auto-restarted";
    } in
    if not db.present
    then incidents
    else prune_incidents (if db.inserts then row ∷ incidents else incidents)

-- What `check` makes of the service; `active` is what systemctl said before the mutex was taken.
abbrev pub counts_restart : Bool → Bool → GuardService → Bool
counts_restart first_run active s = not s.paused && not active && not first_run && s.running

abbrev pub checked_service : Bool → Bool → ℕ → GuardService → GuardService
checked_service first_run active now s =
    let seen : GuardService = record s { running = active } in
    if s.paused
    then seen
    else if active
    then seen
    else if first_run
    then seen
    else if s.running
    then record seen { restarts = suc s.restarts; last_incident = some now }
    else seen

abbrev pub checked_incidents :
    IncidentDb → Bool → Bool → GuardService → List Incident → List Incident
checked_incidents db first_run active s incidents =
    if s.paused
    then if active then log_incident db incidents s (codes "unexpected_active") else incidents
    else if counts_restart first_run active s
    then log_incident db incidents s (codes "restart")
    else incidents

abbrev pub checked_orders : Bool → Bool → GuardService → List Order → List Order
checked_orders first_run active s orders =
    if not s.paused && not active && not first_run
    then guard_start s.service_name ∷ orders
    else orders

unfoldable pub check : IncidentDb → Bool → ℕ → Text → ProcessGuard → ProcessGuard
unfolding log_incident
check db active now n pg = elim (find_service n pg.services) [
  | none ↦ pg
  | some s ↦ record pg {
    services = update_service n (checked_service pg.first_run active now) pg.services;
    orders = checked_orders pg.first_run active s pg.orders;
    incidents = checked_incidents db pg.first_run active s pg.incidents;
  }
]

-- The end of a round of `checkAll`.
unfoldable pub end_round : ProcessGuard → ProcessGuard
end_round pg = record pg { first_run = false }

abbrev pub check_each :
    IncidentDb → (Text → Bool) → ℕ → List GuardService → ProcessGuard → ProcessGuard
check_each db active now [] pg = pg
check_each db active now (s ∷ services) pg =
    check_each db active now services (check db (active s.service_name) now s.service_name pg)

-- A round that nothing interrupts.
unfoldable pub check_all : IncidentDb → (Text → Bool) → ℕ → ProcessGuard → ProcessGuard
unfolding end_round check
check_all db active now pg = end_round (check_each db active now pg.services pg)

abbrev pub set_flags : Bool → Bool → GuardService → GuardService
set_flags paused running s = record s { paused = paused; running = running }

abbrev pub set_paused : Bool → GuardService → GuardService
set_paused paused s = record s { paused = paused }

abbrev pub order : Action → Text → ProcessGuard → ProcessGuard
order a n pg = record pg { orders = user_order a n ∷ pg.orders }

abbrev pub apply : Text → (GuardService → GuardService) → ProcessGuard → ProcessGuard
apply n f pg = record pg { services = update_service n f pg.services }

-- The order, then what it changes; false is the error. `ok` and `active` are systemctl's answers.
abbrev pub act : Action → Bool → Bool → Bool → Text → ProcessGuard → ProcessGuard × Bool
act start ok active written n pg =
    if ok
    then (save_paused written (apply n (set_flags false active) (order start n pg)), true)
    else (order start n pg, false)
act stop ok active written n pg =
    if ok
    then (save_paused written (apply n (set_flags true false) (order stop n pg)), true)
    else (apply n (set_paused false) (order stop n pg), false)
act restart ok active written n pg =
    if ok
    then (save_paused written (apply n (set_flags false active) (order restart n pg)), true)
    else (order restart n pg, false)
act other ok active written n pg = (save_paused written pg, true)

unfoldable pub set_service_state :
    Action → Bool → Bool → Bool → Text → ProcessGuard → ProcessGuard × Bool
unfolding save_paused
set_service_state a ok active written n pg = elim (find_service n pg.services) [
  | none ↦ (pg, true)
  | some s ↦ act a ok active written n pg
]
