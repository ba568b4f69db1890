-- ===== src/Config/Defaults/Filled.antt =====
-- ApplyDefaults fills the pace of every check: the two durations and the two thresholds.
use pathosd.Common.{
  String, ◌≡◌, refl, Bool, true, false, Option, none, some, List, [], ◌∷◌, map, ◌&&◌, ◌==◌,
  if◌then◌else◌, All, is_empty, arith, Bool-cases, inl, inr, ◌⊎◌, ◌∙◌, eq_iff,
}
use pathosd.Common.Int.{pos}
use pathosd.Config.Stdlib.{Stdlib}
use pathosd.Config.Checks.{CheckConfig}
use pathosd.Config.Vip.{VipConfig, check_list}
use pathosd.Config.Validate.Vips.{is_set}
use pathosd.Config.Defaults.Checks.{
  default_http, default_dns, default_ping, default_udp, default_listen, default_sql, default_kafka,
  default_tcp, default_grpc, apply_type_defaults, apply_check_defaults, or_value, set_pace,
  milliseconds,
}
use pathosd.Config.Defaults.{apply_procfs, fill_check, fill_vip, apply_vip_defaults}

-- the durations and thresholds are set
unfoldable pub is_filled : CheckConfig → Bool
is_filled c = is_set c.interval && (is_set c.timeout && (is_set c.rise && is_set c.fall))

-- what a test chooses is filled, if both sides are
either-is_filled :
    (b : Bool) (x y : CheckConfig) {k : Bool}
    → is_filled x ≡ k
    → is_filled y ≡ k
    → is_filled (if b then x else y) ≡ k
either-is_filled true x y p q = p
either-is_filled false x y p q = q

module _ (std : Stdlib) where
  abbrev KeepsPace : (CheckConfig → CheckConfig) → Type 0
  KeepsPace f = (c : CheckConfig) → is_filled (f c) ≡ is_filled c

  default_http-is_filled : (prefix : String) → KeepsPace (default_http std prefix)
  unfolding is_filled default_http
  default_http-is_filled prefix c = refl

  default_dns-is_filled : (prefix : String) → KeepsPace (default_dns std prefix)
  unfolding is_filled default_dns
  default_dns-is_filled prefix c = refl

  default_ping-is_filled : (prefix : String) → KeepsPace (default_ping std prefix)
  unfolding is_filled default_ping
  default_ping-is_filled prefix c = refl

  default_udp-is_filled : (prefix : String) → KeepsPace (default_udp std prefix)
  unfolding is_filled default_udp
  default_udp-is_filled prefix c = refl

  default_listen-is_filled : (prefix : String) → KeepsPace (default_listen std prefix)
  unfolding is_filled default_listen
  default_listen-is_filled prefix c = refl

  default_sql-is_filled : (prefix : String) → KeepsPace (default_sql std prefix)
  unfolding is_filled default_sql
  default_sql-is_filled prefix c = refl

  default_kafka-is_filled : (prefix : String) → KeepsPace (default_kafka std prefix)
  unfolding is_filled default_kafka
  default_kafka-is_filled prefix c = refl

  default_tcp-is_filled : (prefix : String) → KeepsPace (default_tcp std prefix)
  unfolding is_filled default_tcp
  default_tcp-is_filled prefix c = refl

  default_grpc-is_filled : (prefix : String) → KeepsPace (default_grpc std prefix)
  unfolding is_filled default_grpc
  default_grpc-is_filled prefix c = refl

  apply_type_defaults-is_filled :
      (prefix : String) (c : CheckConfig)
      → is_filled (apply_type_defaults std prefix c) ≡ is_filled c
  unfolding apply_type_defaults
  apply_type_defaults-is_filled prefix c =
      either-is_filled (c.type == "http") _ _ (default_http-is_filled prefix c) (
        either-is_filled (c.type == "dns") _ _ (default_dns-is_filled prefix c) (
          either-is_filled (c.type == "ping") _ _ (default_ping-is_filled prefix c) (
            either-is_filled (c.type == "udp") _ _ (default_udp-is_filled prefix c) (
              either-is_filled (c.type == "listen") _ _ (default_listen-is_filled prefix c) (
                either-is_filled (c.type == "sql") _ _ (default_sql-is_filled prefix c) (
                  either-is_filled (c.type == "kafka") _ _ (default_kafka-is_filled prefix c) (
                    either-is_filled (c.type == "tcp") _ _ (default_tcp-is_filled prefix c) (
                      either-is_filled (c.type == "grpc") _ _ (default_grpc-is_filled prefix c)
                        refl))))))))

  or_value-is_set : {A : Type 0} (o : Option A) (a : A) → is_set (or_value o a) ≡ true
  unfolding or_value is_set
  or_value-is_set none a = refl
  or_value-is_set (some b) a = refl

  set_pace-is_filled : (c : CheckConfig) → is_filled (set_pace c) ≡ true
  unfolding set_pace is_filled
  set_pace-is_filled c =
      rw
        (
          or_value-is_set c.interval (milliseconds 1000),
          or_value-is_set c.timeout (milliseconds 100),
          or_value-is_set c.rise (pos 1),
          or_value-is_set c.fall (pos 3),
        )
        refl

  apply_procfs-is_filled : (procfs : String) → KeepsPace (apply_procfs procfs)
  unfolding apply_procfs is_filled
  apply_procfs-is_filled procfs c = ground arith

  fill_check-is_filled :
      (procfs prefix : String) (c : CheckConfig) → is_filled (fill_check std procfs prefix c) ≡ true
  unfolding fill_check apply_check_defaults
  fill_check-is_filled procfs prefix c =
      apply_procfs-is_filled procfs (apply_type_defaults std prefix (set_pace c))
      ∙ apply_type_defaults-is_filled prefix (set_pace c)
      ∙ set_pace-is_filled c

  map_fill-is_filled :
      (procfs prefix : String) (list : List CheckConfig)
      → All (λ c. is_filled c ≡ true) (map (fill_check std procfs prefix) list)
  map_fill-is_filled procfs prefix [] = tt
  map_fill-is_filled procfs prefix (c ∷ list) =
      (fill_check-is_filled procfs prefix c, map_fill-is_filled procfs prefix list)

  fill_vip-is_filled :
      (procfs : String) (v : VipConfig)
      → All (λ c. is_filled c ≡ true) (check_list (fill_vip std procfs v))
  unfolding fill_vip check_list
  fill_vip-is_filled procfs v = either v.checks
    where
      either :
          (list : List CheckConfig)
          → All
              (λ c. is_filled c ≡ true)
              (elim (map (fill_check std procfs v.prefix) list) as (λ _. List CheckConfig) [
                | [] ↦
                    (if is_empty list then fill_check std procfs v.prefix v.check else v.check) ∷ []
                | c ∷ cs ↦ c ∷ cs
              ])
      either [] = (fill_check-is_filled procfs v.prefix v.check, tt)
      either (c ∷ list) = map_fill-is_filled procfs v.prefix (c ∷ list)

  -- The checks of a VIP are filled, unless it has neither a list of checks nor a type of its one check.
  pub apply_vip_defaults-is_filled :
      (procfs : String) (v : VipConfig)
      → ((is_empty (apply_vip_defaults std procfs v).checks ≡ true)
          × ((apply_vip_defaults std procfs v).check.type ≡ ""))
        ⊎ All (λ c. is_filled c ≡ true) (check_list (apply_vip_defaults std procfs v))
  unfolding apply_vip_defaults
  apply_vip_defaults-is_filled procfs v =
      elim (Bool-cases (is_empty v.checks && v.check.type == "")) [
        | inl skipped ↦ rw skipped (inl (ground arith, ground (arith, eq_iff v.check.type "")))
        | inr kept ↦ rw kept (inr (fill_vip-is_filled procfs v))
      ]
