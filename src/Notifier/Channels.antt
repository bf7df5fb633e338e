-- ===== src/Notifier/Channels.antt =====
-- Which channels a notice reaches, `_dispatch` in backend/app/notifier.py.
use lab_gpu_server_monitor.Prelude.{◌≤◌, ◌≡◌, Bool, true, List, [], ◌∷◌, Text, keep, any, arith}
use lab_gpu_server_monitor.Notifier.{Web, Channel, rank, hears, send_webhook, dispatch}

any-keep {ℓ} :
    {A : Type ℓ} (p q sent : A → Bool) (xs : List A)
    → ((x : A) → p x ≡ true → q x ≡ true)
    → any sent (keep p xs) ≡ true
    → any sent (keep q xs) ≡ true
any-keep p q sent [] imp h = h
any-keep p q sent (x ∷ xs) imp h = ground (arith, imp x, any-keep p q sent xs imp)

-- A notice that some channel takes at one severity is taken at every higher one too.
pub dispatch_monotone :
    {Ip : Type 0} (web : Web Ip) (chs : List Channel) (ctx : List (Text × Text)) (low high : Text)
    → rank low ≤ rank high
    → dispatch web chs ctx low ≡ true
    → dispatch web chs ctx high ≡ true
unfolding dispatch
dispatch_monotone web chs ctx low high le h =
    any-keep (hears low) (hears high) (λ ch. (send_webhook web ch.url ch.template ctx).0) chs
      (λ ch heard. ground arith) h
