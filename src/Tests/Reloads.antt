-- ===== src/Tests/Reloads.antt =====
-- A reload of a file that loads.
use pathosd.Common.{sorted, ◌≡◌, refl, ◌∷◌, Bool, true, false, none, some, [], append}
use pathosd.Checks.Registry.{new_registry}
use pathosd.Reload.State.{Reloader, Host}
use pathosd.Reload.Attempt.{reload_locked}
use pathosd.Reload.Progress.{Ends}
use pathosd.Reload.Outcome.{Panics, Keeps, reload_locked-Keeps}
use pathosd.Tests.Fixtures.{Table, table, constants, host, start}
use pathosd.Tests.Files.{parsers, written, decoders}
use pathosd.Tests.Configs.{loaded, loads}

abbrev files : Host
files = record {
  path = "pathosd.yaml";
  decoders = decoders;
  sha256 = λ raw. append "sha256:" raw;
  new_checker = λ c. some c.type;
  takes_level = λ level. true;
}

-- a daemon that runs a config without VIPs
abbrev booted : Reloader Table Bool
booted = record {
  pol = start;
  reg = new_registry;
  pool = record { heap = []; next = 0; closed = [] };
  log_level = "";
  lock_log_level = false;
  cur = record written { vips = [] };
  cur_hash = some "sha256:vips: []";
  loaded_at = 0;
  generation = 1;
  last = none;
  staging = [];
  file_changed = false;
  verdicts = [];
  notices = 0;
}

reload_locked-Keeps_example :
    Ends
      (Panics constants table host loaded "sha256:schema: v1" booted)
      (Keeps loaded "sha256:schema: v1" booted)
      (reload_locked constants table parsers files host (some "schema: v1") booted)
reload_locked-Keeps_example =
    reload_locked-Keeps constants table parsers files host "schema: v1" loaded booted loads

names_sorted : sorted ("web" ∷ "dns" ∷ "web6" ∷ []) ≡ "dns" ∷ "web" ∷ "web6" ∷ []
unfolding sorted
names_sorted = refl
