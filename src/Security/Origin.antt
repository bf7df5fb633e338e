-- ===== src/Security/Origin.antt =====
-- `enforce_login_origin` of backend/app/security.py. `urlsplit` is a parameter; it is `none` where
-- the call or the reading of its port raises `ValueError`.
use lab_gpu_server_monitor.Prelude.{
  ℕ, ◌≡◌, ◌⊎◌, Bool, true, false, not, ◌&&◌, ◌||◌, Option, none, some, ◌++◌, if◌then◌else◌, Text,
  codes, text_eq, ◌==◌, nat_beq, non_empty, strip, arith, Option-cases, inl, inr,
}

pub record UrlParts : Type 0 where
  pub scheme : Text
  pub username : Text
  pub password : Text
  pub hostname : Text
  pub port : Option ℕ
  pub path : Text
  pub query : Text
  pub fragment : Text

-- The headers of a login, empty where they are missing, and the configuration.
pub record Headers : Type 0 where
  pub sec_fetch_site : Text
  pub origin : Text
  pub host : Text

abbrev pub default_port : UrlParts → ℕ
default_port o = if o.scheme == codes "https" then 443 else 80

abbrev pub port_or : Option ℕ → ℕ → ℕ
port_or none d = d
port_or (some p) d = if nat_beq p 0 then d else p

abbrev pub has_port : Option ℕ → ℕ → Bool
has_port none d = false
has_port (some p) d = not (nat_beq p d)

abbrev bare_path : Text → Bool
bare_path p = not (non_empty p) || p == codes "/"

module _ (casefold : Text → Text) (urlsplit : Text → Option UrlParts)
    (allow_insecure_http : Bool) where
  -- the long disjunction: whether the origin is refused
  unfoldable pub foreign : UrlParts → UrlParts → Bool
  foreign parsed target =
      not (parsed.scheme == codes "http" || parsed.scheme == codes "https")
      || non_empty parsed.username
      || non_empty parsed.password
      || not (bare_path parsed.path)
      || non_empty parsed.query
      || non_empty parsed.fragment
      || not (non_empty target.hostname)
      || non_empty target.username
      || non_empty target.password
      || non_empty target.path
      || non_empty target.query
      || non_empty target.fragment
      || not (casefold parsed.hostname == casefold target.hostname)
      || has_port target.port (port_or parsed.port (default_port parsed))
      || (elim target.port [ none ↦ has_port parsed.port (default_port parsed) | some _ ↦ false ])
      || not (parsed.scheme == codes "https") && not allow_insecure_http

  -- Whether the login goes on; `false` is a 403.
  unfoldable pub enforce_login_origin : Headers → Bool
  enforce_login_origin h =
      if casefold h.sec_fetch_site == codes "cross-site"
      then false
      else if not (non_empty (strip h.origin))
      then true
      else elim (urlsplit (strip h.origin)) [
        | none ↦ false
        | some parsed ↦ elim (urlsplit (codes "//" ++ h.host)) [
          | none ↦ false
          | some target ↦ not (foreign parsed target)
        ]
      ]

  same_host :
      (parsed target : UrlParts)
      → foreign parsed target ≡ false
      → (casefold parsed.hostname ≡ casefold target.hostname)
        × (has_port target.port (port_or parsed.port (default_port parsed)) ≡ false)
  unfolding foreign
  same_host parsed target h =
      ground (arith, text_eq.beq_iff (casefold parsed.hostname) (casefold target.hostname))

  web_scheme :
      (parsed target : UrlParts)
      → foreign parsed target ≡ false
      → (parsed.scheme ≡ codes "https")
        ⊎ ((parsed.scheme ≡ codes "http") × (allow_insecure_http ≡ true))
  unfolding foreign
  web_scheme parsed target h = ground (
    arith,
    text_eq.beq_iff parsed.scheme (codes "https"),
    text_eq.beq_iff parsed.scheme (codes "http"),
  )

  not_foreign :
      (h : Headers) (parsed target : UrlParts)
      → enforce_login_origin h ≡ true
      → non_empty (strip h.origin) ≡ true
      → urlsplit (strip h.origin) ≡ some parsed
      → urlsplit (codes "//" ++ h.host) ≡ some target
      → (foreign parsed target ≡ false)
        × ((casefold h.sec_fetch_site == codes "cross-site") ≡ false)
  unfolding enforce_login_origin
  not_foreign h parsed target allowed given p t = ground arith

  -- What the Origin and the Host header of a login say when it is let in.
  pub record IsHome (h : Headers) : Type 0 where
    pub parsed : UrlParts
    pub target : UrlParts
    pub reads : urlsplit (strip h.origin) ≡ some parsed
    pub host_reads : urlsplit (codes "//" ++ h.host) ≡ some target
    pub one_host : casefold parsed.hostname ≡ casefold target.hostname
    pub one_port : has_port target.port (port_or parsed.port (default_port parsed)) ≡ false
    pub web :
        (parsed.scheme ≡ codes "https")
        ⊎ ((parsed.scheme ≡ codes "http") × (allow_insecure_http ≡ true))
    pub same_site : (casefold h.sec_fetch_site == codes "cross-site") ≡ false

  -- A login with an Origin is let in only if it is not marked cross-site and both the Origin and
  -- the Host header can be read, the Origin as a web origin, over TLS unless plain HTTP is allowed,
  -- whose host is the Host header's and whose port is that header's, if it has one.
  pub enforce_login_origin_same :
      (h : Headers) → enforce_login_origin h ≡ true → non_empty (strip h.origin) ≡ true → IsHome h
  unfolding enforce_login_origin
  enforce_login_origin_same h allowed given = elim (Option-cases (urlsplit (strip h.origin))) [
    | inl bad ↦ absurd (ground (arith, given, bad, allowed))
    | inr (parsed, p) ↦ elim (Option-cases (urlsplit (codes "//" ++ h.host))) [
      | inl bad ↦ absurd (ground (arith, given, p, bad, allowed))
      | inr (target, t) ↦
          let (home, site) = not_foreign h parsed target allowed given p t in
          let (host, port) = same_host parsed target home in
          record {
            parsed = parsed;
            target = target;
            reads = p;
            host_reads = t;
            one_host = host;
            one_port = port;
            web = web_scheme parsed target home;
            same_site = site;
          }
    ]
  ]
