-- ===== src/Tests/Fixtures.antt =====
-- Data that the tests share: a notifier that keeps a table of routes, and small configs.
use pathosd.Common.{
  String, ◌≡◌, Bool, true, false, none, some, [], ◌∷◌, arith, ◌==◌, eq_refl, if◌then◌else◌,
}
use pathosd.Common.Dict.{Dict, lookup, insert, delete, lookup-insert, lookup-delete}
use pathosd.Config.Checks.{CheckConfig}
use pathosd.Config.Vip.{VipConfig, PolicyConfig}
use pathosd.Config.ChecksPolicy.{ExprLang}
use pathosd.Model.State.{RouteAttrs}
use pathosd.Checks.Result.{Result, zero_result, HealthTransition}
use pathosd.Policy.Notifier.{Notifier}
use pathosd.Policy.State.{Env, Manager}

-- A table of routes, or one that refuses every operation.
pub record Table : Type 0 where
  pub routes : Dict RouteAttrs
  pub failing : Bool

unfoldable pub put : Table → String → RouteAttrs → Table × Bool
put t p a = if t.failing then (t, false) else (record t { routes = insert p a t.routes }, true)

unfoldable pub drop : Table → String → Table × Bool
drop t p = if t.failing then (t, false) else (record t { routes = delete p t.routes }, true)

pub put-installs :
    (t : Table) (p : String) (a : RouteAttrs)
    → (put t p a).1 ≡ true
    → lookup p (put t p a).0.routes ≡ some a
unfolding put
put-installs t p a h = ground (arith, lookup-insert p p a t.routes, eq_refl p)

pub put-leaves :
    (t : Table) (p q : String) (a : RouteAttrs)
    → (p == q) ≡ false
    → lookup q (put t p a).0.routes ≡ lookup q t.routes
unfolding put
put-leaves t p q a h = ground (arith, lookup-insert p q a t.routes)

pub drop-removes :
    (t : Table) (p : String) → (drop t p).1 ≡ true → lookup p (drop t p).0.routes ≡ none
unfolding drop
drop-removes t p h = ground (arith, lookup-delete p p t.routes, eq_refl p)

pub drop-keeps :
    (t : Table) (p : String)
    → (drop t p).1 ≡ false
    → lookup p (drop t p).0.routes ≡ lookup p t.routes
unfolding drop
drop-keeps t p h = ground arith

pub drop-leaves :
    (t : Table) (p q : String) → (p == q) ≡ false → lookup q (drop t p).0.routes ≡ lookup q t.routes
unfolding drop
drop-leaves t p q h = ground (arith, lookup-delete p q t.routes)

abbrev pub table : Notifier Table RouteAttrs
table = record {
  announce_vip = put;
  pessimize_vip = put;
  withdraw_vip = drop;
  route = λ t p. lookup p t.routes;
  render = λ p a. a;
  overlaps = ◌==◌;
  announce_installs = put-installs;
  pessimize_installs = put-installs;
  withdraw_removes = drop-removes;
  withdraw_keeps = drop-keeps;
  announce_leaves = put-leaves;
  pessimize_leaves = put-leaves;
  withdraw_leaves = drop-leaves;
}

-- An expression language that compiles the texts "true" and "false", to their values.
abbrev pub constants : ExprLang Bool
constants = record {
  compile = λ policy names.
      if policy == "true" then some true else if policy == "false" then some false else none;
  run = λ b env. some b;
}

-- No file is there.
abbrev pub host : Env
host = record { now = 100; stat = λ path. false }

abbrev pub check_named : String → CheckConfig
check_named name = record {
  name = name;
  type = "tcp";
  detailed_metrics = false;
  interval = none;
  timeout = none;
  rise = none;
  fall = none;
  http = none;
  dns = none;
  ping = none;
  udp = none;
  tcp = none;
  listen = none;
  sql = none;
  kafka = none;
  grpc = none;
}

abbrev pub withdraw_policy : PolicyConfig
withdraw_policy = record {
  fail_action = "withdraw";
  lower_priority_file = "";
  announce = none;
  lower_priority = none;
}

-- A VIP of two checks, of which one suffices.
abbrev pub web : VipConfig
web = record {
  name = "web";
  prefix = "10.0.0.1/32";
  check = check_named "";
  checks = check_named "a" ∷ check_named "b" ∷ [];
  checks_policy = "any";
  policy = withdraw_policy;
  require_local_address = false;
  local_interface = "";
}

-- The same VIP without its check "a".
abbrev pub web_b : VipConfig
web_b = record web { checks = check_named "b" ∷ [] }

abbrev pub passed : Result
passed = record zero_result { success = true }

abbrev pub up : String → HealthTransition
up check = record {
  vip_name = "web";
  check_name = check;
  healthy = true;
  reason = "rise threshold reached";
  check_result = passed;
}

abbrev pub down : String → HealthTransition
down check = record (up check) { healthy = false; check_result = zero_result }

-- A manager with no VIP.
abbrev pub start : Manager Table Bool
start = record {
  vips = [];
  order = [];
  world = record {
    notifier = some (record { routes = []; failing = false });
    has_listener = true;
    effects = [];
  };
}
