-- ===== src/Notifier/Tests.antt =====
-- Notices on concrete targets: addresses are numbers, public from 10 on; and the theorems at inputs
-- that meet their hypotheses.
use lab_gpu_server_monitor.Prelude.{
  ℕ, ◌≡◌, refl, true, false, none, some, [], ◌∷◌, List, Text, codes, text_beq, leb, starts_with,
}
use lab_gpu_server_monitor.Notifier.{
  escape, replace_from, render, WebUrl, Web, Channel, resolve_webhook_target, send_webhook,
  enabled_channels, channels, dispatch,
}
use lab_gpu_server_monitor.Notifier.Payload.{outside, skeleton, occurs}
use lab_gpu_server_monitor.Notifier.Payload.Render.{render-skeleton}
use lab_gpu_server_monitor.Notifier.Target.{IsTarget, send_webhook-IsTarget}

program : Unit {0}
unfolding escape replace_from render resolve_webhook_target send_webhook enabled_channels channels
    dispatch text_beq starts_with skeleton occurs
program = tt

abbrev hook : WebUrl
hook = record {
  scheme = codes "https";
  username = [];
  password = [];
  fragment = [];
  hostname = codes "h";
  port = some 0;
  path = [];
  query = [];
}

-- every URL is the hook's; it resolves to one address
abbrev web : ℕ → Web ℕ
web ip = record {
  urlparse = λ _. some hook;
  addresses = λ _ _. some (ip ∷ []);
  is_public = leb 10;
  show_port = λ _. [];
  post = λ _ _ _ _ _ _. some 204;
}

posted : send_webhook (web 12) (codes "u") [] [] ≡ (true, some 12)
unfolding program
posted = refl

-- A host that resolves to a private address is not connected to.
private_refused : send_webhook (web 3) (codes "u") [] [] ≡ (false, none)
unfolding program
private_refused = refl

rendered :
    render (codes "a {{x}}!") ((codes "x", codes "say \"hi\"") ∷ []) ≡ codes "a say \\\"hi\\\"!"
unfolding program
rendered = refl

abbrev pager : Channel
pager = record { url = codes "u"; template = []; min_severity = codes "warning" }

-- A notice of severity "info", as that of every recovery, does not reach a channel for warnings.
recovery_unheard : dispatch (web 12) (pager ∷ []) [] (codes "info") ≡ false
unfolding program
recovery_unheard = refl

alert_heard : dispatch (web 12) (pager ∷ []) [] (codes "warning") ≡ true
unfolding program
alert_heard = refl

abbrev template : Text
template = codes "{\"text\":\"{{rule}} on {{server}}\"}"

-- the value of the first key has a quote and the second key's placeholder
abbrev context : List (Text × Text)
context = (codes "rule", codes "\"}, {{server}}\\") ∷ (codes "server", codes "gpu\n1") ∷ []

render-skeleton_example : skeleton outside (render template context) ≡ some (codes "{\"\":\"\"}")
unfolding program
render-skeleton_example = render-skeleton context template (codes "{\"\":\"\"}") refl refl

connected_12 : (send_webhook (web 12) (codes "u") [] []).1 ≡ some 12
unfolding program
connected_12 = refl

send_webhook-IsTarget_example : (p : WebUrl) × IsTarget (web 12) (codes "u") p 12
send_webhook-IsTarget_example = send_webhook-IsTarget (web 12) (codes "u") [] [] 12 connected_12
