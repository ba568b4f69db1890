-- ===== src/Config/Validate/Services.antt =====
-- internal/config/validate.go: the rules of the Kafka and SQL checks.
use pathosd.Common.{
  ℕ, suc, ◌+◌, String, append, Bool, not, Option, none, some, List, [], ◌∷◌, ◌++◌, ◌&&◌, ◌==◌,
  if◌then◌else◌, print_nat, contains,
}
use pathosd.Common.Int.{pos, ltb_ℤ}
use pathosd.Config.Stdlib.{Stdlib}
use pathosd.Config.Checks.{SqlQueryConfig, SqlCheckConfig, KafkaSaslConfig, KafkaCheckConfig}
use pathosd.Config.Validate.Report.{Problem, report, concat, at_index, lacks_host}

-- the three TLS fields that need `tls: true`, of a Kafka, SQL or gRPC check
unfoldable pub validate_no_tls : String → Bool → Bool → String → String → List Problem
validate_no_tls prefix tls insecure ca_cert server_name = concat (
    report (not tls && insecure) (append prefix ".tls_insecure")
    ∷ report (not tls && not (ca_cert == "")) (append prefix ".tls_ca_cert")
    ∷ report (not tls && not (server_name == "")) (append prefix ".tls_server_name")
    ∷ [])

-- the rules of `sasl`; the empty mechanism has a message of its own
unfoldable pub validate_sasl : String → Option KafkaSaslConfig → List Problem
validate_sasl prefix none = []
validate_sasl prefix (some s) = concat (
    report (not (contains s.mechanism ("plain" ∷ "scram-sha-256" ∷ "scram-sha-512" ∷ [])))
      (append prefix ".sasl.mechanism")
    ∷ report (s.user == "") (append prefix ".sasl.user")
    ∷ report (s.password == "") (append prefix ".sasl.password")
    ∷ [])

-- func (q *SQLQueryConfig) EffectiveName
unfoldable pub query_effective_name : SqlQueryConfig → ℕ → String
query_effective_name q index =
    if q.name == "" then append "q" (print_nat (index + 1) "") else q.name

module _ (std : Stdlib) where
  -- func validateKafkaCheck
  unfoldable pub validate_kafka_check : String → KafkaCheckConfig → String → List Problem
  unfolding validate_no_tls validate_sasl
  validate_kafka_check prefix k vip_prefix = concat (
      report (lacks_host std k.host vip_prefix) (append prefix ".host")
      ∷ report (ltb_ℤ k.min_brokers (pos 0)) (append prefix ".min_brokers")
      ∷ validate_no_tls prefix k.tls k.tls_insecure k.tls_ca_cert k.tls_server_name
      ∷ report (k.tls_insecure && not (k.tls_ca_cert == "")) (append prefix ".tls_insecure")
      ∷ validate_sasl prefix k.sasl
      ∷ [])

  -- the loop of validateSQLCheck over the queries, with the names seen so far
  unfoldable pub validate_queries : String → ℕ → List String → List SqlQueryConfig → List Problem
  validate_queries prefix i names [] = []
  validate_queries prefix i names (q ∷ queries) =
      let qp = at_index (append prefix ".queries") i in
      let name = query_effective_name q i in
      concat (
        report (std.trim_space q.sql == "") (append qp ".sql")
        ∷ report (contains name names) (append qp ".name")
        ∷ report (not (q.result_jq == "") && not (std.jq_parses q.result_jq))
            (append qp ".result_jq")
        ∷ [])
      ++ validate_queries prefix (suc i) (if contains name names then names else name ∷ names)
          queries

  -- func validateSQLCheck; the empty driver has a message of its own
  unfoldable pub validate_sql_check : String → SqlCheckConfig → String → List Problem
  unfolding validate_no_tls validate_queries
  validate_sql_check prefix s vip_prefix = concat (
      report (not (contains s.driver ("mysql" ∷ "postgres" ∷ []))) (append prefix ".driver")
      ∷ report (s.user == "") (append prefix ".user")
      ∷ report (lacks_host std s.host vip_prefix) (append prefix ".host")
      ∷ report (ltb_ℤ s.max_rows (pos 0)) (append prefix ".max_rows")
      ∷ validate_no_tls prefix s.tls s.tls_insecure s.tls_ca_cert s.tls_server_name
      ∷ report (s.tls_insecure && not (s.tls_ca_cert == "")) (append prefix ".tls_insecure")
      ∷ validate_queries prefix 0 [] s.queries
      ∷ [])
