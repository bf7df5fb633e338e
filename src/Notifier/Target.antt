-- ===== src/Notifier/Target.antt =====
-- Where `send_webhook` of backend/app/notifier.py connects to.
use lab_gpu_server_monitor.Prelude.{
  ◌≡◌, inl, inr, true, some, List, [], ◌∷◌, Text, codes, text_eq, all, non_empty, arith,
  Option-cases,
}
use lab_gpu_server_monitor.Notifier.{
  Web, WebUrl, first_public, port_or_443, port_of, resolve_webhook_target, send_webhook,
}

module _ {Ip : Type 0} (web : Web Ip) where
  first_public_lem :
      (ips : List Ip) (ip : Ip)
      → first_public web ips ≡ some ip
      → (all web.is_public ips ≡ true) × (web.is_public ip ≡ true)
  first_public_lem [] ip h = absurd (ground arith)
  first_public_lem (x ∷ ips) ip h = ground arith

  -- What holds of a target that was let through.
  pub record IsTarget (url : Text) (p : WebUrl) (ip : Ip) : Type 0 where
    pub parsed : web.urlparse url ≡ some p
    pub secure : p.scheme ≡ codes "https"
    pub host : non_empty p.hostname ≡ true
    pub public : web.is_public ip ≡ true
    pub resolved :
        (ips : List Ip) × (web.addresses p.hostname (port_of web p) ≡ some ips)
        × (all web.is_public ips ≡ true)

  resolve_webhook_target-IsTarget :
      (url : Text) (p : WebUrl) (ip : Ip)
      → resolve_webhook_target web url ≡ some (p, ip)
      → IsTarget url p ip
  unfolding resolve_webhook_target
  resolve_webhook_target-IsTarget url p ip h = elim (Option-cases (web.urlparse url)) [
    | inl bad ↦ absurd (ground arith)
    | inr (q, parsed) ↦ elim (Option-cases q.port) [
      | inl bad ↦ absurd (ground arith)
      | inr (port, given) ↦ elim (Option-cases (web.addresses q.hostname (port_or_443 port))) [
        | inl unknown ↦ absurd (ground arith)
        | inr (ips, found) ↦ elim (Option-cases (first_public web ips)) [
          | inl closed ↦ absurd (ground arith)
          | inr (first, pinned) ↦
              let public = first_public_lem ips first pinned in
              let same : q ≡ p = ground arith in
              let same_ip : first ≡ ip = ground arith in
              record {
                parsed = ground arith;
                secure = ground (arith, text_eq.beq_iff q.scheme (codes "https"));
                host = ground arith;
                public = ground (arith, public);
                resolved = (ips, ground (arith, found, same), public.0);
              }
        ]
      ]
    ]
  ]

  connected :
      (url template : Text) (ctx : List (Text × Text)) (ip : Ip)
      → (send_webhook web url template ctx).1 ≡ some ip
      → (p : WebUrl) × (resolve_webhook_target web url ≡ some (p, ip))
  unfolding send_webhook
  connected url template ctx ip h = elim (Option-cases (resolve_webhook_target web url)) [
    | inl refused ↦ absurd (ground arith)
    | inr ((p, first), found) ↦ (p, ground arith)
  ]

  -- A notice connects only to a public address, of an HTTPS URL with a host, all of whose addresses
  -- are public.
  pub send_webhook-IsTarget :
      (url template : Text) (ctx : List (Text × Text)) (ip : Ip)
      → (send_webhook web url template ctx).1 ≡ some ip
      → (p : WebUrl) × IsTarget url p ip
  send_webhook-IsTarget url template ctx ip h =
      let (p, found) = connected url template ctx ip h in
      (p, resolve_webhook_target-IsTarget url p ip found)
