-- ===== src/Guard/Examples.antt =====
-- Runs of the process guard on the panel's own services.
use wp_panel_en_private.Base.{◌+◌, ◌≡◌, refl, true, false, not, some, none, List, [], ◌∷◌}
use wp_panel_en_private.Base.Text.{codes}
use wp_panel_en_private.Access.Bans.{count_where}
use wp_panel_en_private.Guard.Service.{
  GuardService, ProcessGuard, IncidentDb, guarded_services, find_service, stop, check_all,
  set_service_state, save_paused, check, end_round, log_incident, prune_incidents,
}
use wp_panel_en_private.Guard.Steps.{
  Step, checks, ends_round, sets, step_all, answers, falls, guard_starts,
}
use wp_panel_en_private.Guard.Outages.{outages_counted, paused_not_started}

abbrev working_db : IncidentDb
working_db = record { present = true; inserts = true }

-- The panel at its start, before and after the first round that finds everything running.
abbrev at_start : ProcessGuard
unfolding guarded_services
at_start = record {
  services = guarded_services;
  first_run = true;
  paused_file = none;
  orders = [];
  incidents = [];
}

abbrev watching : ProcessGuard
unfolding check_all check end_round log_incident prune_incidents at_start guarded_services
watching = check_all working_db (λ n. true) 10 at_start

abbrev nginx : GuardService
nginx = record {
  name = codes "Nginx";
  service_name = codes "nginx";
  running = true;
  paused = false;
  restarts = 0;
  last_incident = none;
}

-- nginx stops, stays down, comes back and stops again, while redis is stopped by its button.
abbrev bad_day : List Step
bad_day =
    checks working_db false 40 (codes "nginx")
    ∷ ends_round
    ∷ checks working_db false 70 (codes "nginx")
    ∷ sets stop true false true (codes "redis-server")
    ∷ checks working_db true 100 (codes "nginx")
    ∷ checks working_db false 130 (codes "nginx")
    ∷ []

outages_counted_example :
    (s' : GuardService) × (find_service (codes "nginx") (step_all watching bad_day).services
      ≡ some s')
    × (s'.restarts ≡ falls true (answers (codes "nginx") bad_day) + 0)
    × (guard_starts (codes "nginx") (step_all watching bad_day).orders
        ≡ count_where not (answers (codes "nginx") bad_day)
          + guard_starts (codes "nginx") watching.orders)
unfolding check_all check end_round log_incident prune_incidents watching at_start guarded_services
outages_counted_example = outages_counted (codes "nginx") watching nginx bad_day refl refl refl refl

bad_day-falls : falls true (answers (codes "nginx") bad_day) ≡ 2
bad_day-falls = refl

abbrev stopped_nginx : ProcessGuard
unfolding set_service_state save_paused watching check_all check end_round at_start guarded_services
stopped_nginx = (set_service_state stop true false true (codes "nginx") watching).0

abbrev paused_nginx : GuardService
paused_nginx = record {
  name = codes "Nginx";
  service_name = codes "nginx";
  running = false;
  paused = true;
  restarts = 0;
  last_incident = none;
}

paused_not_started_example :
    (s' : GuardService) × (find_service (codes "nginx") (step_all stopped_nginx bad_day).services
      ≡ some s')
    × (s'.paused ≡ true)
    × (guard_starts (codes "nginx") (step_all stopped_nginx bad_day).orders
        ≡ guard_starts (codes "nginx") stopped_nginx.orders)
unfolding stopped_nginx set_service_state save_paused watching check_all check end_round at_start
    guarded_services
paused_not_started_example =
    paused_not_started (codes "nginx") stopped_nginx paused_nginx bad_day refl refl refl
