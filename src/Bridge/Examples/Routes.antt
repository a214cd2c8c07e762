-- ===== src/Bridge/Examples/Routes.antt =====
-- The deletion of a session whose process is idle.
use pi_opensandbox_runner.Base.{◌≡◌, refl, true, false, none, [], ◌∷◌}
use pi_opensandbox_runner.Base.Table.{get, modify}
use pi_opensandbox_runner.Bridge.Problem.{ok}
use pi_opensandbox_runner.Bridge.Catalog.{record_id, next_event_seq, delete, set_runtime}
use pi_opensandbox_runner.Bridge.Journal.{Directory, append}
use pi_opensandbox_runner.Bridge.Supervisor.{
  World, active, stop, finish_stop, process_exited, report_exit, drop_exited, record_and,
  record_event,
}
use pi_opensandbox_runner.Bridge.Prompts.{require_session}
use pi_opensandbox_runner.Bridge.Sessions.{erase_session, delete_session}
use pi_opensandbox_runner.Bridge.Sessions.Deletion.{delete_session-gone}
use pi_opensandbox_runner.Bridge.Examples.{ten_bytes}
use pi_opensandbox_runner.Bridge.Examples.Processes.{one_slot, world, process}

abbrev idle_world : World
idle_world = world (process 1 false ∷ [])

abbrev erased : Directory → Directory
erased d = []

abbrev deleted : World
deleted = (delete_session one_slot ten_bytes erased 1 true (ok tt) (ok tt) 9 idle_world).1

deletion_returns :
    delete_session one_slot ten_bytes erased 1 true (ok tt) (ok tt) 9 idle_world ≡ (ok tt, deleted)
unfolding delete_session require_session stop finish_stop process_exited report_exit drop_exited
    active get record_and record_event append next_event_seq erase_session delete set_runtime modify
deletion_returns = refl

delete_session-gone_example :
    (get record_id 1 deleted.rows ≡ none)
    × (active 1 deleted.processes ≡ none)
    × (deleted.journals 1 ≡ [])
delete_session-gone_example =
    delete_session-gone one_slot ten_bytes erased 1 true (ok tt) (ok tt) 9 idle_world deleted
      deletion_returns
