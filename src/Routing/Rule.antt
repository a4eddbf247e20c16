-- ===== src/Routing/Rule.antt =====
-- service/network-service/src/routing/rule.rs.
use network_client.Prelude.{
  ℕ, Bool, Option, none, some, Text, t, text_eq, to_ascii_uppercase, ℤ, pos, negsuc, ltb,
  if◌then◌else◌,
}

pub data Action : Type 0 where
  direct proxy block : Action

unfoldable pub parse_action : Text → Option Action
unfolding text_eq to_ascii_uppercase
parse_action s =
    let upper = to_ascii_uppercase s in
    if text_eq upper (t "DIRECT")
    then some direct
    else if text_eq upper (t "PROXY")
    then some proxy
    else if text_eq upper (t "BLOCK")
    then some block
    else none

pub data RuleKind : Type 0 where
  domain domain_suffix domain_keyword domain_regex ip_cidr port process protocol geoip : RuleKind

unfoldable pub parse_kind : Text → Option RuleKind
unfolding text_eq
parse_kind s =
    if text_eq s (t "domain")
    then some domain
    else if text_eq s (t "domain_suffix")
    then some domain_suffix
    else if text_eq s (t "domain_keyword")
    then some domain_keyword
    else if text_eq s (t "domain_regex")
    then some domain_regex
    else if text_eq s (t "ip_cidr")
    then some ip_cidr
    else if text_eq s (t "port")
    then some port
    else if text_eq s (t "process")
    then some process
    else if text_eq s (t "protocol")
    then some protocol
    else if text_eq s (t "geoip")
    then some geoip
    else none

unfoldable pub default_priority : RuleKind → ℕ
default_priority process = 900
default_priority domain = 800
default_priority domain_suffix = 800
default_priority domain_keyword = 800
default_priority domain_regex = 800
default_priority ip_cidr = 700
default_priority port = 700
default_priority protocol = 700
default_priority geoip = 600

pub record Rule : Type 0 where
  pub id : Text
  pub kind : RuleKind
  pub value : Text
  pub action : Action
  pub enabled : Bool
  pub priority : ℤ

-- `if priority > 0 { priority } else { default }`: the result is always positive.
priority_or : ℤ → ℕ → ℕ
priority_or (pos n) d = if ltb 0 n then n else d
priority_or (negsuc _) d = d

unfoldable pub effective_priority : Rule → ℕ
unfolding priority_or default_priority
effective_priority r = priority_or r.priority (default_priority r.kind)

unfoldable pub as_user : Rule → Rule
as_user r = record r { priority = pos 1000 }

-- The addresses are the lists of their octets, 4 or 16.
pub data IpAddr {ℓ} (O : Type ℓ) : Type ℓ where
  v4 v6 : O → IpAddr O

pub record Flow (Ip : Type 0) : Type 0 where
  pub protocol : Text
  pub src_ip : Option Ip
  pub src_port : ℕ
  pub dst_ip : Option Ip
  pub dst_port : ℕ
  pub domain : Option Text
  pub process_id : ℕ
  pub process_name : Option Text

pub record Decision : Type 0 where
  pub action : Action
  pub rule_id : Option Text
  pub reason : Text

unfoldable pub decision_direct : Text → Decision
decision_direct reason = record { action = direct; rule_id = none; reason = reason }

unfoldable pub decision_proxy : Text → Decision
decision_proxy reason = record { action = proxy; rule_id = none; reason = reason }
