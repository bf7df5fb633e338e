-- ===== src/Security/Proxy.antt =====
-- `resolve_client_ip` of backend/app/security.py: the client's address behind trusted proxies.
-- Addresses and networks are those of Python's `ipaddress`, as a parameter.
use lab_gpu_server_monitor.Prelude.{
  ℕ, ◌≡◌, refl, ap, ◌∙◌, ◌⊎◌, inl, inr, Bool, true, false, ◌&&◌, Option, none, some, List, [], ◌∷◌,
  ◌++◌, if◌then◌else◌, any, keep, Text, codes, non_empty, strip, split_on, split_on-append, arith,
}
use mathlib.Core.List.{reverse, reverse-append}

pub record Net : Type 1 where
  pub Ip : Type 0
  pub Network : Type 0
  -- `ipaddress.ip_address` and `ipaddress.ip_network`, `none` for a `ValueError`
  pub parse_ip : Text → Option Ip
  pub parse_network : Text → Option Network
  pub show : Ip → Text
  pub member : Ip → Network → Bool

-- A comprehension whose calls may raise.
abbrev pub all_some {ℓ κ} : {A : Type ℓ} {B : Type κ} → (A → Option B) → List A → Option (List B)
all_some f [] = some []
all_some f (x ∷ xs) = elim (f x) [
  | none ↦ none
  | some y ↦ elim (all_some f xs) [ none ↦ none | some ys ↦ some (y ∷ ys) ]
]

abbrev pub comma : Text → List Text
comma = split_on b','

abbrev pub invalid_forwarded : Text
invalid_forwarded = codes "invalid-forwarded-address"

-- What `resolve_client_ip` reads of a request: the address resolved before, the peer, and the
-- X-Forwarded-For header, empty where there is none.
pub record Peer : Type 0 where
  pub resolved : Text
  pub client : Option Text
  pub forwarded : Text

abbrev append_results {ℓ} : {A : Type ℓ} → Option (List A) → Option (List A) → Option (List A)
append_results none r = none
append_results (some xs) none = none
append_results (some xs) (some ys) = some (xs ++ ys)

and-true : (b : Bool) → (b && true) ≡ b
and-true b = ground arith

all_some-append {ℓ κ} :
    {A : Type ℓ} {B : Type κ} (f : A → Option B) (xs ys : List A)
    → all_some f (xs ++ ys) ≡ append_results (all_some f xs) (all_some f ys)
all_some-append f [] ys = ground arith
all_some-append f (x ∷ xs) ys = ground (arith, all_some-append f xs ys)

non_empty-append : (s : Text) (c : ℕ) (t : Text) → non_empty (s ++ c ∷ t) ≡ true
non_empty-append [] c t = refl
non_empty-append (d ∷ s) c t = refl

module _ (net : Net) (trust_proxy : Bool) (cidrs : Text) where
  open net use {Ip, Network, parse_ip, parse_network, show, member}

  unfoldable pub parse_peer : Text → Option (Ip × List Network)
  parse_peer peer = elim (parse_ip peer) [
    | none ↦ none
    | some ip ↦
        elim (all_some (λ s. parse_network (strip s))
          (keep (λ s. non_empty (strip s)) (comma cidrs))) [
            | none ↦ none
            | some trusted ↦ some (ip, trusted)
          ]
  ]

  unfoldable pub is_trusted : List Network → Ip → Bool
  is_trusted trusted ip = any (member ip) trusted

  -- the loop over the reversed chain
  unfoldable pub walk : List Network → Ip → List Ip → Ip
  walk trusted current [] = current
  walk trusted current (candidate ∷ more) =
      if is_trusted trusted current then walk trusted candidate more else current

  unfoldable pub parse_chain : Text → Option (List Ip)
  parse_chain forwarded = all_some (λ s. parse_ip (strip s)) (comma forwarded)

  -- the address that a parsed header leads to
  unfoldable pub chain_address : List Network → Ip → Option (List Ip) → Text
  chain_address trusted ip none = invalid_forwarded
  chain_address trusted ip (some chain) = show (walk trusted ip (reverse chain))

  abbrev pub peer_of : Peer → Text
  peer_of r = elim r.client [ none ↦ codes "unknown" | some host ↦ host ]

  unfoldable pub resolve_client_ip : Peer → Text
  resolve_client_ip r = if non_empty r.resolved then r.resolved else elim (parse_peer (peer_of r)) [
    | none ↦ peer_of r
    | some (ip, trusted) ↦
        if trust_proxy && (is_trusted trusted ip && non_empty r.forwarded)
        then chain_address trusted ip (parse_chain r.forwarded)
        else peer_of r
  ]

  walk-append :
      (trusted : List Network) (current : Ip) (xs ys : List Ip)
      → is_trusted trusted (walk trusted current xs) ≡ false
      → walk trusted current (xs ++ ys) ≡ walk trusted current xs
  unfolding walk
  walk-append trusted current [] [] h = refl
  walk-append trusted current [] (y ∷ ys) h = rw h
  walk-append trusted current (x ∷ xs) ys h = ground (arith, walk-append trusted x xs ys)

  prepend_chain :
      (forged honest : Option (List Ip)) (chain : List Ip)
      → honest ≡ some chain
      → (append_results forged honest ≡ none)
        ⊎ ((fs : List Ip) × (append_results forged honest ≡ some (fs ++ chain)))
  prepend_chain none honest chain h = inl refl
  prepend_chain (some fs) honest chain h = inr (fs, rw h)

  parse_chain-prepend :
      (forged honest : Text) (chain : List Ip)
      → parse_chain honest ≡ some chain
      → (parse_chain (forged ++ b',' ∷ honest) ≡ none)
        ⊎ ((fs : List Ip) × (parse_chain (forged ++ b',' ∷ honest) ≡ some (fs ++ chain)))
  unfolding parse_chain
  parse_chain-prepend forged honest chain h =
      rw
        (
          split_on-append b',' forged honest,
          all_some-append (λ s. parse_ip (strip s)) (comma forged) (comma honest),
        )
        (prepend_chain (parse_chain forged) (parse_chain honest) chain h)

  resolve-proxied :
      (r : Peer) (ip : Ip) (trusted : List Network)
      → parse_peer (peer_of r) ≡ some (ip, trusted)
      → non_empty r.forwarded ≡ true
      → resolve_client_ip r ≡ (
          if non_empty r.resolved
          then r.resolved
          else if trust_proxy && is_trusted trusted ip
          then chain_address trusted ip (parse_chain r.forwarded)
          else peer_of r)
  unfolding resolve_client_ip
  resolve-proxied r ip trusted peer header = rw (peer, header, resolve_client_ip) (rw and-true)

  choose :
      (a b : Bool) (p q : Text) {x y z : Text}
      → (x ≡ y) ⊎ (x ≡ z)
      → ((if a then p else if b then x else q) ≡ (if a then p else if b then y else q))
        ⊎ ((if a then p else if b then x else q) ≡ z)
  choose true b p q h = inl refl
  choose false true p q h = h
  choose false false p q h = inl refl

  chain_address-prepend :
      (trusted : List Network) (ip : Ip) (forged honest : Text) (chain : List Ip)
      → parse_chain honest ≡ some chain
      → is_trusted trusted (walk trusted ip (reverse chain)) ≡ false
      → (chain_address trusted ip (parse_chain (forged ++ b',' ∷ honest))
          ≡ chain_address trusted ip (parse_chain honest))
        ⊎ (chain_address trusted ip (parse_chain (forged ++ b',' ∷ honest)) ≡ invalid_forwarded)
  unfolding chain_address
  chain_address-prepend trusted ip forged honest chain h outside =
      elim (parse_chain-prepend forged honest chain h) [
        | inl bad ↦ inr (rw (bad, chain_address))
        | inr (fs, good) ↦ inl (
            rw (good, h, chain_address)
              (ap show (
                ap (walk trusted ip) (reverse-append fs chain)
                ∙ walk-append trusted ip (reverse chain) (reverse fs) outside)))
      ]

  -- What a proxy chain is worth: where the addresses that trusted proxies have appended lead to an
  -- address that is no trusted proxy, nothing that the client wrote in front of them changes the
  -- outcome. At most the whole header is refused.
  pub resolve_client_ip-prepend :
      (r : Peer) (forged : Text) (ip : Ip) (trusted : List Network) (chain : List Ip)
      → parse_peer (peer_of r) ≡ some (ip, trusted)
      → non_empty r.forwarded ≡ true
      → parse_chain r.forwarded ≡ some chain
      → is_trusted trusted (walk trusted ip (reverse chain)) ≡ false
      → let forgery = record r { forwarded = forged ++ b',' ∷ r.forwarded } in
        (resolve_client_ip forgery ≡ resolve_client_ip r)
        ⊎ (resolve_client_ip forgery ≡ invalid_forwarded)
  resolve_client_ip-prepend r forged ip trusted chain peer header parsed outside =
      let forgery = record r { forwarded = forged ++ b',' ∷ r.forwarded } in
      rw
        (
          resolve-proxied r ip trusted peer header,
          resolve-proxied forgery ip trusted peer (non_empty-append forged b',' r.forwarded),
        )
        (choose (non_empty r.resolved) (trust_proxy && is_trusted trusted ip) r.resolved (peer_of r)
          (chain_address-prepend trusted ip forged r.forwarded chain parsed outside))

  -- A peer that is no trusted proxy, or any peer where proxies are not trusted, is itself the
  -- client, whatever header it sends.
  pub resolve_client_ip-untrusted :
      (r : Peer) (header : Text)
      → non_empty r.resolved ≡ false
      → (trust_proxy ≡ false)
        ⊎ ((parse_peer (peer_of r) ≡ none)
            ⊎ ((ip : Ip) × (trusted : List Network) × (parse_peer (peer_of r) ≡ some (ip, trusted))
                × (is_trusted trusted ip ≡ false)))
      → resolve_client_ip (record r { forwarded = header }) ≡ peer_of r
  unfolding resolve_client_ip
  resolve_client_ip-untrusted r header new untrusted = ground arith
