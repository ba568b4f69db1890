-- ===== src/Reload/State.antt =====
-- internal/reload/reload.go: the state of the Reloader, with the schedulers and the VIPs that it drives.
-- A *Scheduler is an address; its state lies in the pool. Reads of the file and of the clock are arguments.
use pathosd.Common.{
  ℕ, suc, String, Bool, true, false, Option, none, some, List, [], ◌∷◌, ◌++◌, map, nat_eq,
  if◌then◌else◌,
}
use pathosd.Common.Int.{ℤ}
use pathosd.Common.Dict.{Dict}
use pathosd.Config.Vip.{VipConfig, Config}
use pathosd.Config.Load.{Decoders}
use pathosd.Config.Checks.{CheckConfig}
use pathosd.Checks.Result.{Result, HealthTransition}
use pathosd.Checks.Scheduler.{Scheduler}
use pathosd.Checks.Registry.{SchedulerRef, Registry}
use pathosd.Policy.State.{Manager}
use pathosd.Policy.Commit.{CommitError}

-- What a callback of a scheduler does: it calls the policy manager, or it reports a verdict.
pub data Action : Type 0 where
  transition : HealthTransition → Action
  result : String → String → Result → Action
  shadow_result : ℕ → Action

-- the schedulers that were made, the next address, and those whose checker is closed
pub record Pool : Type 0 where
  pub heap : List (ℕ × Scheduler Action)
  pub next : ℕ
  pub closed : List ℕ

-- the state of a scheduler
unfoldable pub scheduler_at : ℕ → List (ℕ × Scheduler Action) → Option (Scheduler Action)
scheduler_at a [] = none
scheduler_at a ((b, s) ∷ heap) = if nat_eq b a then some s else scheduler_at a heap

unfoldable pub update_at :
    ℕ
    → (Scheduler Action → Scheduler Action)
    → List (ℕ × Scheduler Action)
    → List (ℕ × Scheduler Action)
update_at a f [] = []
update_at a f ((b, s) ∷ heap) = if nat_eq b a then (b, f s) ∷ heap else (b, s) ∷ update_at a f heap

-- new schedulers get the next addresses
unfoldable pub allocate : Pool → List (Scheduler Action) → Pool × List SchedulerRef
allocate pool [] = (pool, [])
allocate pool (s ∷ scheds) =
    let ref : SchedulerRef = record {
      address = pool.next;
      vip_name = s.vip_name;
      check_name = s.check_name;
    } in
    let (pool', refs) =
      allocate (record pool { heap = (pool.next, s) ∷ pool.heap; next = suc pool.next }) scheds in
    (pool', ref ∷ refs)

-- func closeSchedulers
unfoldable pub close_schedulers : List SchedulerRef → Pool → Pool
close_schedulers refs pool = record pool { closed = map SchedulerRef.address refs ++ pool.closed }

-- type stagedVIP; `verdicts` holds the names that are marked
pub record StagedVip : Type 0 where
  pub cfg : VipConfig
  pub old : VipConfig
  pub shadows : Dict SchedulerRef
  pub verdicts : List String
  pub removed : List String
  pub deadline : ℤ

-- the values of Outcome
pub data Outcome : Type 0 where
  applied unchanged rejected failed : Outcome

-- The reasons for a rejected reload, and the errors of a failed one, without their texts.
pub data RejectError : Type 0 where
  bad_file cannot_build : RejectError
  restart_needed : List String → RejectError

pub data ReloadError : Type 0 where
  remove_error commit_error : CommitError → ReloadError
  level_error : ReloadError

-- type ReloadStatus
pub record ReloadStatus : Type 0 where
  pub at : ℕ
  pub outcome : Outcome
  pub error : Option RejectError
  pub errors : List ReloadError
  pub added : List String
  pub removed : List String
  pub changed : List String
  pub pending : List String

-- func (r *ReloadStatus) OK
unfoldable pub status_ok : Option ReloadStatus → Bool
status_ok none = false
status_ok (some st) = elim st.outcome [
  | applied ↦ true
  | unchanged ↦ true
  | rejected ↦ false
  | failed ↦ false
]

-- type Reloader, with the policy manager, the registry and the level of the logging; `cur_hash` is
-- `none` when it is the zero array, which no file has
pub record Reloader (N P : Type 0) : Type 0 where
  pub pol : Manager N P
  pub reg : Registry
  pub pool : Pool
  pub log_level : String
  pub lock_log_level : Bool
  pub cur : Config
  pub cur_hash : Option String
  pub loaded_at : ℕ
  pub generation : ℕ
  pub last : Option ReloadStatus
  pub staging : Dict StagedVip
  pub file_changed : Bool
  pub verdicts : List SchedulerRef
  pub notices : ℕ  -- the calls of onChange

-- What the source gets from elsewhere: the path of the file, the decoders of its text, sha256.Sum256, the
-- factory of the checkers, and whether logging.SetLevel takes a level.
pub record Host : Type 0 where
  pub path : String
  pub decoders : Decoders
  pub sha256 : String → String
  pub new_checker : CheckConfig → Option String
  pub takes_level : String → Bool
