-- ===== src/Notifier.antt =====
-- Webhook notices, backend/app/notifier.py: the payload, the check of a target's address, the choice
-- of channels. URL parsing, name resolution, address classes and the HTTPS exchange are the record
-- `Web`; an address is a value of its type `Ip`.
pub mod Payload
pub mod Target
pub mod Channels
mod Tests
use lab_gpu_server_monitor.Prelude.{
  ℕ, ◌+◌, ◌-◌, ◌/◌, ◌%◌, Bool, true, false, not, ◌&&◌, ◌||◌, Option, none, some, List, [], ◌∷◌,
  ◌++◌, zero, suc, if◌then◌else◌, Text, codes, text_eq, nat_beq, ltb, leb, ◌==◌, keep, any, all,
  length, map, non_empty, starts_with,
}

-- one hexadecimal digit, lower case
abbrev pub hex_digit : ℕ → ℕ
hex_digit n = if ltb n 10 then 48 + n else 87 + n

-- what `json.dumps(…, ensure_ascii=False)` writes for a character inside the quotes
abbrev pub escape_char : ℕ → Text
escape_char c =
    if nat_beq c 34
    then codes "\\\""
    else if nat_beq c 92
    then codes "\\\\"
    else if nat_beq c 8
    then codes "\\b"
    else if nat_beq c 9
    then codes "\\t"
    else if nat_beq c 10
    then codes "\\n"
    else if nat_beq c 12
    then codes "\\f"
    else if nat_beq c 13
    then codes "\\r"
    else if ltb c 32
    then codes "\\u00" ++ (hex_digit (c / 16) ∷ hex_digit (c % 16) ∷ [])
    else c ∷ []

-- `json.dumps(str(v), ensure_ascii=False)[1:-1]`
unfoldable pub escape : Text → Text
escape [] = []
escape (c ∷ s) = escape_char c ++ escape s

-- `str.replace` of a pattern that is not empty, with the number of characters that are left of an
-- occurrence
unfoldable pub replace_from : ℕ → Text → Text → Text → Text
replace_from n pattern new [] = []
replace_from zero pattern new (c ∷ t) =
    let more = replace_from (length pattern - 1) pattern new t in
    let next = replace_from 0 pattern new t in
    if starts_with pattern (c ∷ t) then new ++ more else c ∷ next
replace_from (suc n) pattern new (c ∷ t) = replace_from n pattern new t

abbrev pub placeholder : Text → Text
placeholder k = codes "{{" ++ (k ++ codes "}}")

-- `_render`
unfoldable pub render : Text → List (Text × Text) → Text
render template [] = template
render template ((k, v) ∷ ctx) = render (replace_from 0 (placeholder k) (escape v) template) ctx

-- what the code reads of a parsed URL; `none` for the port is a ValueError, `some 0` a missing one
pub record WebUrl : Type 0 where
  pub scheme : Text
  pub username : Text
  pub password : Text
  pub fragment : Text
  pub hostname : Text
  pub port : Option ℕ
  pub path : Text
  pub query : Text

pub record Web (Ip : Type 0) : Type 0 where
  pub urlparse : Text → Option WebUrl
  -- `getaddrinfo`, or its failure
  pub addresses : Text → ℕ → Option (List Ip)
  -- `is_global`, and not an IPv6 site-local address
  pub is_public : Ip → Bool
  pub show_port : ℕ → Text
  -- connects to an address by TLS under a host name, and posts; the status, or an exception
  pub post : Text → ℕ → Ip → Text → Text → Text → Option ℕ

abbrev pub port_or_443 : ℕ → ℕ
port_or_443 p = if nat_beq p 0 then 443 else p

module _ {Ip : Type 0} (web : Web Ip) where
  abbrev pub first_public : List Ip → Option Ip
  first_public [] = none
  first_public (ip ∷ ips) = if all web.is_public (ip ∷ ips) then some ip else none

  -- `_resolve_webhook_target`: the URL and the address that its connection is pinned to
  unfoldable pub resolve_webhook_target : Text → Option (WebUrl × Ip)
  resolve_webhook_target url =
      if not (non_empty url) || ltb 2048 (length url) then none else elim (web.urlparse url) [
        | none ↦ none
        | some p ↦
            if not (p.scheme == codes "https")
              || (non_empty p.username || (non_empty p.password || non_empty p.fragment))
            then none
            else if not (non_empty p.hostname)
            then none
            else elim p.port [
              | none ↦ none
              | some port ↦ elim (web.addresses p.hostname (port_or_443 port)) [
                | none ↦ none
                | some ips ↦ elim (first_public ips) [ none ↦ none | some ip ↦ some (p, ip) ]
              ]
            ]
      ]

  abbrev pub is_success : Option ℕ → Bool
  is_success none = false
  is_success (some status) = leb 200 status && ltb status 300

  abbrev pub port_of : WebUrl → ℕ
  port_of p = elim p.port [ none ↦ 443 | some port ↦ port_or_443 port ]

  abbrev pub path_of : WebUrl → Text
  path_of p =
      (if non_empty p.path then p.path else codes "/")
      ++ (if non_empty p.query then b'?' ∷ p.query else [])

  abbrev pub host_header : WebUrl → Text
  host_header p =
      if nat_beq (port_of p) 443
      then p.hostname
      else p.hostname ++ (b':' ∷ web.show_port (port_of p))

  -- `send_webhook`: whether it was taken, and the address that was connected to
  unfoldable pub send_webhook : Text → Text → List (Text × Text) → Bool × Option Ip
  send_webhook url template ctx = elim (resolve_webhook_target url) [
    | none ↦ (false, none)
    | some (p, ip) ↦ (
      is_success
          (web.post p.hostname (port_of p) ip (path_of p) (host_header p) (render template ctx)),
      some ip,
    )
  ]

-- a channel as `_channels` gives it
pub record Channel : Type 0 where
  pub url : Text
  pub template : Text
  pub min_severity : Text

-- `_SEV_RANK.get(…, 0)`
abbrev pub rank : Text → ℕ
rank s = if s == codes "warning" then 1 else if s == codes "critical" then 2 else 0

-- a row of `webhook_channels`, its address revealed
pub record ChannelRow : Type 0 where
  pub revealed_url : Text
  pub row_template : Text
  pub row_severity : Text
  pub enabled : Bool

abbrev pub text_or : Text → Text → Text
text_or [] d = d
text_or (c ∷ t) d = c ∷ t

module _ (default_template : Text) where
  unfoldable pub enabled_channels : List ChannelRow → List Channel
  enabled_channels [] = []
  enabled_channels (r ∷ rows) =
      let rest = enabled_channels rows in
      if r.enabled && non_empty r.revealed_url
      then record {
        url = r.revealed_url;
        template = text_or r.row_template default_template;
        min_severity = text_or r.row_severity (codes "info");
      }
        ∷ rest
      else rest

  abbrev fallback : Text → Text → List Channel
  fallback url template =
      if non_empty url
      then record { url = url; template = template; min_severity = codes "info" } ∷ []
      else []

  -- `_channels`, with the single target of the settings where there are none
  unfoldable pub channels : List ChannelRow → Text → Text → List Channel
  channels rows url template = elim (enabled_channels rows) [
    | [] ↦ fallback url template
    | c ∷ cs ↦ c ∷ cs
  ]

abbrev pub hears : Text → Channel → Bool
hears severity ch = leb (rank ch.min_severity) (rank severity)

-- `_dispatch`, to the channels: whether one of them took the notice
unfoldable pub dispatch : {Ip : Type 0} → Web Ip → List Channel → List (Text × Text) → Text → Bool
dispatch web chs ctx severity =
    any (λ ch. (send_webhook web ch.url ch.template ctx).0) (keep (hears severity) chs)
