-- ===== src/Sink/Secure.antt =====
-- Where the client's sink may send the device's token (New of internal/sink/httpsink.go, and its
-- use by cmd/ai-limit-notifier/main.go).
use ai_limit_notifier.Prelude.{
  ℕ, ◌≡◌, ◌≢◌, ◌↔◌, ◌⊎◌, ◌∙◌, refl, sym, ap, true, false, ◌==◌, Text, ascii, [], ◌∷◌, ◌++◌, Option,
  some, arith, Option-cases, Bool-cases, inl, inr,
}
use mathlib.Core.Path.{subst}
use ai_limit_notifier.Sink.{HttpSink, new_sink, trim_slash, secure, is_empty}

-- A scheme and a host to which the token may go: https, or the machine itself.
abbrev pub MaySend : Text × Text → Type 0
MaySend (scheme, host) =
    (scheme ≡ ascii "https")
    ⊎ (host ≡ ascii "localhost")
    ⊎ (host ≡ ascii "127.0.0.1")
    ⊎ (host ≡ ascii "::1")

-- The text without the slash at its end, if it has one.
abbrev pub Unslashed : Text → Text → Type 0
Unslashed s t = (s ≡ t ++ ascii "/") ⊎ ((s ≡ t) × ((p : Text) → s ≢ p ++ ascii "/"))

secure-MaySend : (u : Text × Text) → secure u ≡ true → MaySend u
secure-MaySend (scheme, host) h = ground arith

MaySend-secure : (u : Text × Text) → MaySend u → secure u ≡ true
MaySend-secure (scheme, host) h = ground arith

trim_slash-append : (t : Text) → trim_slash (t ++ ascii "/") ≡ t
unfolding trim_slash
trim_slash-append [] = refl
trim_slash-append (c ∷ []) = refl
trim_slash-append (c ∷ d ∷ t) = ap (λ s. c ∷ s) (trim_slash-append (d ∷ t))

bare_empty : (p : Text) → [] ≢ p ++ ascii "/"
bare_empty [] h = cc
bare_empty (x ∷ p) h = cc

bare_one : (c : ℕ) (p : Text) → c ∷ [] ≡ p ++ ascii "/" → c ≡ 47
bare_one c [] h = cc
bare_one c (x ∷ p) h = absurd (bare_empty p cc)

bare_more :
    (c d : ℕ) (s : Text)
    → ((p : Text) → d ∷ s ≢ p ++ ascii "/")
    → (p : Text) → c ∷ d ∷ s ≢ p ++ ascii "/"
bare_more c d s bare [] h = cc
bare_more c d s bare (x ∷ p) h = bare p cc

trim_slash-Unslashed : (s : Text) → Unslashed s (trim_slash s)
unfolding trim_slash
trim_slash-Unslashed [] = inr (refl, bare_empty)
trim_slash-Unslashed (c ∷ []) = elim (Bool-cases (c == 47)) [
  | inl e ↦ let slash : c ≡ 47 = ground arith in rw e (inl (ap (λ b. b ∷ []) slash))
  | inr e ↦ rw e (inr (refl, λ p h. let slash = bare_one c p h in absurd (ground arith)))
]
trim_slash-Unslashed (c ∷ d ∷ s) = elim (trim_slash-Unslashed (d ∷ s)) [
  | inl e ↦ inl (ap (λ t. c ∷ t) e)
  | inr (e, bare) ↦ inr (ap (λ t. c ∷ t) e, bare_more c d s bare)
]

Unslashed-same : (s t : Text) → Unslashed s t → t ≡ trim_slash s
Unslashed-same s t (inl e) = sym (trim_slash-append t) ∙ sym (ap trim_slash e)
Unslashed-same s t (inr (e, bare)) = elim (trim_slash-Unslashed s) [
  | inl e' ↦ absurd (bare (trim_slash s) e')
  | inr (e', _) ↦ sym e ∙ e'
]

full_lem : (s : Text) → s ≢ [] → is_empty s ≡ false
full_lem [] h = absurd (h refl)
full_lem (c ∷ s) h = refl

-- A sink is made exactly if the address parses, its scheme is https or its host localhost,
-- 127.0.0.1 or ::1, and the token is not empty; it has that token and the address without a
-- slash at its end.
pub new_sink_iff :
    (parse_url : Text → Option (Text × Text)) (endpoint token : Text) (s : HttpSink)
    → (new_sink parse_url endpoint token ≡ some s) ↔ (
        (u : Text × Text) × (parse_url endpoint ≡ some u)
        × MaySend u
        × (token ≢ [])
        × (s.token ≡ token)
        × Unslashed endpoint s.base_url)
unfolding new_sink
new_sink_iff parse_url endpoint token s = (
  λ h. elim (Option-cases (parse_url endpoint)) [
    | inl e ↦ absurd (ground arith)
    | inr (u, e) ↦ elim (Bool-cases (secure u)) [
      | inr e' ↦ absurd (ground arith)
      | inl e' ↦ elim (Bool-cases (is_empty token)) [
        | inl e'' ↦ absurd (ground arith)
        | inr e'' ↦
            let made : some (record { base_url = trim_slash endpoint; token = token }) ≡ some s =
              rw (e, e', e'', new_sink) at h in
            let same_one : record { base_url = trim_slash endpoint; token = token } ≡ s = cc in
            (
              u,
              e,
              secure-MaySend u e',
              (λ empty. absurd (ground arith)),
              ap (λ x. x.token) (sym same_one),
              subst (Unslashed endpoint) (ap (λ x. x.base_url) same_one)
                  (trim_slash-Unslashed endpoint),
            )
      ]
    ]
  ],
  λ (u, e, may, full, same_token, same_url).
      let nonempty : is_empty token ≡ false = full_lem token full in
      let made : record { base_url = trim_slash endpoint; token = token } ≡ s =
        ground (arith, Unslashed-same endpoint s.base_url same_url) in
      rw (e, MaySend-secure u may, nonempty, new_sink) (ap some made),
)
