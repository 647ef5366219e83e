-- ===== src/Rules/Model.antt =====
-- crates/rules/src/model.rs: what a rule header selects on.
use cyber_sentinel_ids_ips.Prelude.{Bool, true, false, String}

pub data Action : Type 0 where
  alert_action pass_action drop_action : Action

pub blocks : Action → Bool
blocks drop_action = true
blocks action = false

abbrev pub action_as_str : Action → String
action_as_str alert_action = "alert"
action_as_str pass_action = "pass"
action_as_str drop_action = "drop"

pub data RuleProtocol : Type 0 where
  rule_tcp rule_udp rule_icmp rule_ip rule_http rule_dns rule_tls : RuleProtocol

abbrev pub rule_protocol_as_str : RuleProtocol → String
rule_protocol_as_str rule_tcp = "tcp"
rule_protocol_as_str rule_udp = "udp"
rule_protocol_as_str rule_icmp = "icmp"
rule_protocol_as_str rule_ip = "ip"
rule_protocol_as_str rule_http = "http"
rule_protocol_as_str rule_dns = "dns"
rule_protocol_as_str rule_tls = "tls"

pub is_app_layer : RuleProtocol → Bool
is_app_layer rule_http = true
is_app_layer rule_dns = true
is_app_layer rule_tls = true
is_app_layer protocol = false

pub data Direction : Type 0 where
  to_destination bidirectional : Direction

abbrev pub direction_as_str : Direction → String
direction_as_str to_destination = "->"
direction_as_str bidirectional = "<>"
