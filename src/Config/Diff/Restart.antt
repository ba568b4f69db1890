-- ===== src/Config/Diff/Restart.antt =====
-- RestartRequired names a section whenever something differs that a reload cannot change.
use pathosd.Common.{String, ◌≡◌, Bool, true, false, List, [], ◌∷◌, eq_iff, eq_refl, All, refl, sym}
use pathosd.Config.Vip.{VipConfig, Config}
use pathosd.Config.Equality.{
  deep_equal-eq, deep_equal_refl, list_discrete, NeighborConfig-Discrete, RouterConfig-Discrete,
  BgpConfig-Discrete, OtelConfig-Discrete, ApiConfig-Discrete, LoggingConfig-Discrete,
  PathsConfig-Discrete,
}
use pathosd.Config.Diff.{restart_required, sections, differing, without_level, without_neighbors}

differing-none : (list : List (Bool × String)) → differing list ≡ [] → All (λ x. x.0 ≡ true) list
unfolding differing
differing-none [] h = tt
differing-none ((true, name) ∷ list) h = (refl, differing-none list h)
differing-none ((false, name) ∷ list) h = cc

from_sections :
    (running candidate : Config)
    → running.schema ≡ candidate.schema
    → running.router ≡ candidate.router
    → running.api ≡ candidate.api
    → without_level running.logging ≡ without_level candidate.logging
    → running.otel ≡ candidate.otel
    → running.paths ≡ candidate.paths
    → without_neighbors running.bgp ≡ without_neighbors candidate.bgp
    → running.bgp.neighbors ≡ candidate.bgp.neighbors
    → record running {
      logging = record running.logging { level = candidate.logging.level };
      vips = candidate.vips;
    }
      ≡ candidate
from_sections running candidate schema router api logging otel paths bgp neighbors = λ i. record {
  schema = schema i;
  router = router i;
  api = api i;
  logging = record (logging i) { level = candidate.logging.level };
  otel = otel i;
  paths = paths i;
  bgp = record (bgp i) { neighbors = neighbors i };
  vips = candidate.vips;
}

-- If no section requires a restart, then the configs differ at most in their VIPs and in the level of
-- the logging.
pub restart_required-none :
    (running candidate : Config)
    → restart_required running candidate ≡ []
    → candidate ≡ record running {
      logging = record running.logging { level = candidate.logging.level };
      vips = candidate.vips;
    }
unfolding restart_required
restart_required-none running candidate h =
    let (schema, (router, (api, (logging, (otel, (paths, (bgp, (neighbors, rest)))))))) =
      differing-none (sections running candidate) h in
    sym (
      from_sections running candidate ((eq_iff running.schema candidate.schema).0 schema)
        (deep_equal-eq RouterConfig-Discrete _ _ router) (deep_equal-eq ApiConfig-Discrete _ _ api)
        (deep_equal-eq LoggingConfig-Discrete _ _ logging)
        (deep_equal-eq OtelConfig-Discrete _ _ otel) (deep_equal-eq PathsConfig-Discrete _ _ paths)
        (deep_equal-eq BgpConfig-Discrete _ _ bgp)
        (deep_equal-eq (list_discrete NeighborConfig-Discrete) _ _ neighbors))

-- A config that differs in its VIPs and in the level of the logging requires no restart.
pub restart_required_without :
    (running : Config) (level : String) (vips : List VipConfig)
    → restart_required running
        (record running { logging = record running.logging { level = level }; vips = vips })
      ≡ []
unfolding restart_required differing
restart_required_without running level vips =
    rw
      (
        eq_refl running.schema,
        deep_equal_refl RouterConfig-Discrete,
        deep_equal_refl ApiConfig-Discrete,
        deep_equal_refl LoggingConfig-Discrete,
        deep_equal_refl OtelConfig-Discrete,
        deep_equal_refl PathsConfig-Discrete,
        deep_equal_refl BgpConfig-Discrete,
        deep_equal_refl (list_discrete NeighborConfig-Discrete),
      )
      refl
