-- ===== src/Api/Admission.antt =====
-- Whom the server admits, and which address it counts a request against.
use ai_limit_notifier.Prelude.{
  ℕ, ◌≡◌, ◌∙◌, sym, refl, ap, Bool, true, not, ◌==◌, Text, List, [], ◌∷◌, ◌++◌, Option, none, some,
  any_row, inl, inr, ◌⊎◌, arith, Bool-cases, Option-cases,
}
use ai_limit_notifier.Store.Devices.{Device, authenticate_device}
use ai_limit_notifier.Api.Limiter.{allow, allow_device}
use ai_limit_notifier.Api.Reply.{Refusal}
use ai_limit_notifier.Api.Gate.{
  bearer_token, last_part, contains, host_of, forwarded, client_ip, Limits, rate_limited,
  unauthorized, admit_device, admit_token, require_auth,
}

abbrev pub no_comma : Text → Bool
no_comma s = not (any_row (λ c. c == 44) s)

comma_inside : (p a : Text) → any_row (λ c. c == 44) (p ++ 44 ∷ a) ≡ true
unfolding any_row
comma_inside [] a = refl
comma_inside (b ∷ p) a = ground (arith, comma_inside p a)

last_part-append : (p a : Text) → no_comma a ≡ true → last_part (p ++ 44 ∷ a) ≡ a
unfolding last_part
last_part-append [] a h = ground arith
last_part-append (b ∷ p) a h = ground (arith, comma_inside p a, last_part-append p a h)

last_part_single : (a : Text) → no_comma a ≡ true → last_part a ≡ a
unfolding last_part any_row
last_part_single [] h = refl
last_part_single (b ∷ a) h = ground arith

-- The header's value has this entry last; an absent header has the empty one.
abbrev pub LastEntry : Text → Text → Type 0
LastEntry xff a = (no_comma a ≡ true) × ((xff ≡ a) ⊎ ((p : Text) × (xff ≡ p ++ 44 ∷ a)))

last_part-LastEntry : (xff a : Text) → LastEntry xff a → last_part xff ≡ a
last_part-LastEntry xff a (h, inl e) = ap last_part e ∙ last_part_single a h
last_part-LastEntry xff a (h, inr (p, e)) = ap last_part e ∙ last_part-append p a h

module _ {Ip : Type 0} (split : Text → Option Text) (parse : Text → Option Ip) (trim : Text → Text)
    (nets : List (Ip → Bool)) where
  -- The peer's address belongs to a network of the allowlist.
  abbrev pub Trusted : Text → Type 0
  Trusted remote =
      (peer : Ip) × (parse (host_of split remote) ≡ some peer) × (contains nets peer ≡ true)

  -- Which address a request from a peer is counted against, by the last entry of the header.
  pub data Counted (remote a answer : Text) : Type 0 where
    as_peer : ¬ Trusted remote → answer ≡ host_of split remote → Counted remote a answer
    as_entry :
        (ip : Ip)
        → Trusted remote
        → parse (trim a) ≡ some ip
        → answer ≡ trim a
        → Counted remote a answer
    as_proxy :
        Trusted remote
        → parse (trim a) ≡ none
        → answer ≡ host_of split remote
        → Counted remote a answer

  abbrev entry_or : Text → Text → Text
  entry_or host x = elim (parse (trim x)) [ none ↦ host | some ip ↦ trim x ]

  forwarded_entry :
      (host xff a : Text)
      → parse (trim []) ≡ none
      → last_part xff ≡ a
      → forwarded parse trim host xff ≡ entry_or host a
  unfolding forwarded last_part
  forwarded_entry host [] a bad e =
      let empty : host ≡ entry_or host [] = rw (bad, entry_or) refl in empty ∙ ap (entry_or host) e
  forwarded_entry host (b ∷ xff) a bad e = ap (entry_or host) e

  client_ip-Counted :
      (remote xff a : Text)
      → parse (trim []) ≡ none
      → LastEntry xff a
      → Counted remote a (client_ip split parse trim nets remote xff)
  unfolding client_ip
  client_ip-Counted remote xff a bad last = elim (Option-cases (parse (host_of split remote))) [
    | inl e ↦ as_peer (λ (peer, known, _). absurd (ground arith)) (rw (e, client_ip) refl)
    | inr (peer, e) ↦ elim (Bool-cases (contains nets peer)) [
      | inr out ↦
          as_peer (λ (p, known, trusted). absurd (ground arith)) (rw (e, out, client_ip) refl)
      | inl inside ↦
          let read =
            forwarded_entry (host_of split remote) xff a bad (last_part-LastEntry xff a last) in
          elim (Option-cases (parse (trim a))) [
            | inl e' ↦
                as_proxy (peer, e, inside) e'
                  (rw (e, inside, client_ip) (read ∙ rw (e', entry_or) refl))
            | inr (ip, e') ↦
                as_entry ip (peer, e, inside) e'
                  (rw (e, inside, client_ip) (read ∙ rw (e', entry_or) refl))
          ]
    ]
  ]

  Counted-same : (remote a x y : Text) → Counted remote a x → Counted remote a y → x ≡ y
  Counted-same remote a x y (as_peer t e) (as_peer t' e') = e ∙ sym e'
  Counted-same remote a x y (as_peer t e) (as_entry ip t' h e') = absurd (t t')
  Counted-same remote a x y (as_peer t e) (as_proxy t' h e') = absurd (t t')
  Counted-same remote a x y (as_entry ip t h e) (as_peer t' e') = absurd (t' t)
  Counted-same remote a x y (as_entry ip t h e) (as_entry ip' t' h' e') = e ∙ sym e'
  Counted-same remote a x y (as_entry ip t h e) (as_proxy t' h' e') = absurd (ground arith)
  Counted-same remote a x y (as_proxy t h e) (as_peer t' e') = absurd (t' t)
  Counted-same remote a x y (as_proxy t h e) (as_entry ip t' h' e') = absurd (ground arith)
  Counted-same remote a x y (as_proxy t h e) (as_proxy t' h' e') = e ∙ sym e'

  -- If the empty text is no address, a request is counted against the peer's host, whatever the
  -- X-Forwarded-For, unless the peer is a trusted proxy; then it is counted against the last
  -- entry of the header, or against the peer's host if that entry is no address or there is
  -- none. Headers that agree in their last entry, whatever the client wrote before it, give the
  -- same address.
  pub client_ip-unspoofable :
      (remote xff yff a : Text)
      → parse (trim []) ≡ none
      → LastEntry xff a
      → LastEntry yff a
      → Counted remote a (client_ip split parse trim nets remote xff)
        × (client_ip split parse trim nets remote xff ≡ client_ip split parse trim nets remote yff)
  client_ip-unspoofable remote xff yff a bad last other =
      let counted = client_ip-Counted remote xff a bad last in
      (counted, Counted-same remote a _ _ counted (client_ip-Counted remote yff a bad other))

authenticate_sound :
    (hash : Text → Text) (t : List Device) (raw : Text) (d : Device)
    → authenticate_device hash t raw ≡ some d
    → (d.token_hash ≡ hash raw) × (d.revoked_at ≡ none)
unfolding authenticate_device
authenticate_sound hash t raw d h = ground arith

module _ {Bucket : Type 0} (ip_bucket device_bucket : Bucket) (spend : Bucket → ℕ → Bool × Bucket)
    (trim hash : Text → Text) (devices : List Device) where
  abbrev pub authorized : Limits Bucket → Text → Text → ℕ → Limits Bucket × (Refusal ⊎ Device)
  authorized = require_auth ip_bucket device_bucket spend trim hash devices

  -- A refusal is one of two, and a device is not revoked and has the hash of the bearer token.
  abbrev pub Outcome : Text → Refusal ⊎ Device → Type 0
  Outcome authorization (inl r) = (r ≡ unauthorized) ⊎ (r ≡ rate_limited)
  Outcome authorization (inr d) =
      (token : Text) × (bearer_token trim authorization ≡ some token)
      × (d.token_hash ≡ hash token)
      × (d.revoked_at ≡ none)

  device-Outcome :
      (l : Limits Bucket) (authorization token : Text) (now : ℕ) (o : Option Device)
      → bearer_token trim authorization ≡ some token
      → authenticate_device hash devices token ≡ o
      → Outcome authorization
          (admit_device ip_bucket device_bucket spend trim hash devices l now o).1
  unfolding admit_device
  device-Outcome l authorization token now none b e = inl refl
  device-Outcome l authorization token now (some d) b e =
      elim (Bool-cases (allow_device device_bucket spend l.by_device_id d.id now).1) [
        | inl ok ↦ rw ok (
            let (known, active) = authenticate_sound hash devices token d e in
            (token, b, known, active))
        | inr over ↦ rw over (inr refl)
      ]

  token-Outcome :
      (l : Limits Bucket) (authorization : Text) (now : ℕ) (o : Option Text)
      → bearer_token trim authorization ≡ o
      → Outcome authorization
          (admit_token ip_bucket device_bucket spend trim hash devices l now o).1
  unfolding admit_token
  token-Outcome l authorization now none b = inl refl
  token-Outcome l authorization now (some token) b =
      device-Outcome l authorization token now (authenticate_device hash devices token) b refl

  -- A request that is refused before its handler gets one of two answers, whichever part of its
  -- credentials is wrong, and the handler runs only with a device that is not revoked and whose
  -- stored hash is that of the request's bearer token.
  pub require_auth-outcomes :
      (l : Limits Bucket) (client authorization : Text) (now : ℕ)
      → Outcome authorization (authorized l client authorization now).1
  unfolding require_auth
  require_auth-outcomes l client authorization now =
      elim (Bool-cases (allow ip_bucket spend l.ips client now).1) [
        | inl ok ↦ rw ok (token-Outcome _ authorization now (bearer_token trim authorization) refl)
        | inr over ↦ rw over (inr refl)
      ]
