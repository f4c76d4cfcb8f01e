-- ===== src/Tests/Roles.antt =====
-- Runs of a DHNetWork.
use dhserver.Base.{◌≡◌, ◌⊎◌, refl, none, some}
use dhserver.Base.Outcome.{done}
use dhserver.Server.Stop
use dhserver.DhNetWork.{type_nonset, type_dhserver, is_server, DhNetWork, end}
use dhserver.DhNetWork.Calls.{IsCoherent}
use dhserver.DhNetWork.Roles.{ends, here, step, Reaches-IsCoherent}
use dhserver.Tests.{all_ok, serving}

-- A server, and what End makes of it.
abbrev running : DhNetWork
running = record {
  net_work = some (is_server serving);
  debug_option = 1;
  current_type = type_dhserver;
}

abbrev stopped : DhNetWork
stopped = record running { net_work = none }

stops : end running ≡ done (1, stopped)
unfolding end Stop.end
stops = refl

Reaches-IsCoherent_example :
    IsCoherent stopped × ((type_dhserver ≡ type_dhserver) ⊎ (type_dhserver ≡ type_nonset))
Reaches-IsCoherent_example =
    Reaches-IsCoherent all_ok running stopped
      (step running stopped stopped (ends running stopped 1 stops) (here stopped)) refl
