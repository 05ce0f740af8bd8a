-- ===== src/Api/Acks.antt =====
-- What an answer of the usage endpoint promises about the table of events.
use mathlib.Core.Path.{subst}
use ai_limit_notifier.Prelude.{
  ℕ, ◌≡◌, refl, Bool, true, Text, ascii, List, [], ◌∷◌, Option, none, some, inl, inr, ◌⊎◌, arith,
  any_row, unix, Option-cases,
}
use ai_limit_notifier.Domain.{
  Provider, WindowKind, five_hour, weekly, UsageWindow, UsageSnapshot, is_kind, validate_snapshot,
}
use ai_limit_notifier.Domain.Validate.{IsSnapshot, validate_snapshot_iff}
use ai_limit_notifier.Store.Event.{Event, Engine}
use ai_limit_notifier.Store.Upsert.{Upserted, ok, err, upsert_pending_event, key_of}
use ai_limit_notifier.Store.Lasting.{Has, upsert-key, upsert-kept}
use ai_limit_notifier.Store.Integrity.{IsTable}
use ai_limit_notifier.Store.History.{upsert-IsTable, table_after}
use ai_limit_notifier.Store.Devices.{Device}
use ai_limit_notifier.Api.Reply.{
  Reply, Refusal, accepted, failure, Body, too_large, malformed, trailing, decoded,
}
use ai_limit_notifier.Api.Usage.{
  WindowRequest, provider_of, parse_field, parse_window, check_windows, check_snapshot,
  check_request, UsageRequest, input_of, persist, handle_usage, check_body,
}

widen : {A B C : Type 0} → A ⊎ B → A ⊎ B ⊎ C
widen (inl a) = inl a
widen (inr b) = inr (inl b)

module _ (db : Engine) (d : Device) (p : Provider) (combine : ℕ) where
  abbrev persisted :
      Upserted → List Event → List (Option UsageWindow × Text × ℕ) → List Event × Reply
  persisted r t ws = elim r [
    | ok u i created ↦ persist db d p combine u ws
    | err e ↦ (t, failure 500 (ascii "persistence_failed") [])
  ]

  persist-IsTable :
      (t : List Event) (ws : List (Option UsageWindow × Text × ℕ))
      → IsTable t
      → IsTable (persist db d p combine t ws).0
  unfolding persist
  persist-IsTable t [] v = v
  persist-IsTable t ((none, i, now) ∷ ws) v = persist-IsTable t ws v
  persist-IsTable t ((some w, i, now) ∷ ws) v =
      split _ (upsert-IsTable db t (input_of d p w) i combine now v)
        (λ u v'. persist-IsTable u ws v')
    where
      split :
          (r : Upserted)
          → IsTable (table_after t r)
          → ((u : List Event) → IsTable u → IsTable (persist db d p combine u ws).0)
          → IsTable (persisted r t ws).0
      split (ok u j created) v' rest = rest u v'
      split (err e) v' rest = v'

  -- The loop ends in one of two answers.
  persist-reply :
      (t : List Event) (ws : List (Option UsageWindow × Text × ℕ))
      → ((persist db d p combine t ws).1 ≡ accepted)
        ⊎ ((persist db d p combine t ws).1 ≡ failure 500 (ascii "persistence_failed") [])
  unfolding persist
  persist-reply t [] = inl refl
  persist-reply t ((none, i, now) ∷ ws) = persist-reply t ws
  persist-reply t ((some w, i, now) ∷ ws) =
      split (upsert_pending_event db t (input_of d p w) i combine now) (λ u. persist-reply u ws)
    where
      split :
          (r : Upserted)
          → ((u : List Event)
              → ((persist db d p combine u ws).1 ≡ accepted)
                ⊎ ((persist db d p combine u ws).1 ≡ failure 500 (ascii "persistence_failed") []))
          → ((persisted r t ws).1 ≡ accepted)
            ⊎ ((persisted r t ws).1 ≡ failure 500 (ascii "persistence_failed") [])
      split (ok u j created) rest = rest u
      split (err e) rest = inr refl

-- A window that was submitted has a row of its user, provider, kind and reset time.
abbrev pub Stored : Device → Provider → Option UsageWindow → List Event → Type 0
Stored d p none t = Unit
Stored d p (some w) t = any_row (key_of (input_of d p w)) t ≡ true

abbrev OfKind : WindowKind → Option UsageWindow → Type 0
OfKind kind none = Unit
OfKind kind (some w) = w.kind ≡ kind

module _ (db : Engine) (d : Device) (p : Provider) (combine : ℕ) where
  second-Stored :
      (q : Event → Bool) (r : Upserted) (t : List Event) (w : UsageWindow)
      → Has q r
      → Has (key_of (input_of d p w)) r
      → (persisted db d p combine r t []).1 ≡ accepted
      → (any_row q (persisted db d p combine r t []).0 ≡ true)
        × Stored d p (some w) (persisted db d p combine r t []).0
  unfolding persist
  second-Stored q (ok u i created) t w a b done = (a, b)
  second-Stored q (err e) t w a b done = cc

  last-Stored :
      (t : List Event) (w : Option UsageWindow) (i : Text) (now : ℕ)
      → (persist db d p combine t ((w, i, now) ∷ [])).1 ≡ accepted
      → Stored d p w (persist db d p combine t ((w, i, now) ∷ [])).0
  unfolding persist
  last-Stored t none i now done = tt
  last-Stored t (some w) i now done =
      (second-Stored (key_of (input_of d p w))
        (upsert_pending_event db t (input_of d p w) i combine now) t w
        (upsert-key (input_of d p w) db t i combine now)
        (upsert-key (input_of d p w) db t i combine now) done).1

  both-Stored :
      (r : Upserted) (t : List Event) (f : UsageWindow) (w : Option UsageWindow) (i : Text)
      (now : ℕ)
      → f.kind ≡ five_hour
      → OfKind weekly w
      → IsTable (table_after t r)
      → Has (key_of (input_of d p f)) r
      → (persisted db d p combine r t ((w, i, now) ∷ [])).1 ≡ accepted
      → Stored d p (some f) (persisted db d p combine r t ((w, i, now) ∷ [])).0
        × Stored d p w (persisted db d p combine r t ((w, i, now) ∷ [])).0
  unfolding persist ai_limit_notifier.Domain.WindowKind-discrete
  both-Stored (ok u j created) t f none i now kf kw v a done = (a, tt)
  both-Stored (ok u j created) t f (some w) i now kf kw v a done =
      second-Stored (key_of (input_of d p f))
        (upsert_pending_event db u (input_of d p w) i combine now) u w
        (upsert-kept (input_of d p w) d.user_id p f.kind (unix f.reset_at) (rw (kf, kw) refl) db u i
          combine now v a)
        (upsert-key (input_of d p w) db u i combine now) done
  both-Stored (err e) t f w i now kf kw v a done = cc

  windows-Stored :
      (t : List Event) (f w : Option UsageWindow) (i j : Text) (now later : ℕ)
      → OfKind five_hour f
      → OfKind weekly w
      → IsTable t
      → (persist db d p combine t ((f, i, now) ∷ (w, j, later) ∷ [])).1 ≡ accepted
      → let u = (persist db d p combine t ((f, i, now) ∷ (w, j, later) ∷ [])).0 in
        Stored d p f u × Stored d p w u
  unfolding persist
  windows-Stored t none w i j now later kf kw v done = (tt, last-Stored t w j later done)
  windows-Stored t (some f) w i j now later kf kw v done =
      both-Stored (upsert_pending_event db t (input_of d p f) i combine now) t f w j later kf kw
        (upsert-IsTable db t (input_of d p f) i combine now v)
        (upsert-key (input_of d p f) db t i combine now) done

module _ (parse_time : Text → Option ℕ) where
  parse_field-kind :
      (o : Option WindowRequest) (kind : WindowKind) (name : Text) (now : ℕ)
      (f : Option UsageWindow)
      → parse_field parse_time o kind name now ≡ inr f
      → OfKind kind f
  unfolding parse_field parse_window
  parse_field-kind o kind name now none h = tt
  parse_field-kind none kind name now (some w) h = cc
  parse_field-kind (some r) kind name now (some w) h = ground arith

  check_snapshot-kinds :
      (s u : UsageSnapshot) (now : ℕ)
      → check_snapshot parse_time s now ≡ inr u
      → OfKind five_hour s.five_hour_window
      → OfKind weekly s.weekly_window
      → OfKind five_hour u.five_hour_window × OfKind weekly u.weekly_window
  unfolding check_snapshot
  check_snapshot-kinds s u now h f w =
      let same_snapshot : s ≡ u = ground (arith, h) in
      subst (λ v. OfKind five_hour v.five_hour_window × OfKind weekly v.weekly_window) same_snapshot
        (f, w)

  check_windows-kinds :
      (req : UsageRequest) (now : ℕ) (s : UsageSnapshot)
      → check_windows parse_time req now ≡ inr s
      → OfKind five_hour s.five_hour_window × OfKind weekly s.weekly_window
  unfolding check_windows
  check_windows-kinds req now s h =
      both (parse_field parse_time req.five_hour_request five_hour (ascii "five_hour") now)
        (parse_field parse_time req.weekly_request weekly (ascii "weekly") now)
        (parse_field-kind req.five_hour_request five_hour (ascii "five_hour") now)
        (parse_field-kind req.weekly_request weekly (ascii "weekly") now) h
    where
      both :
          (f w : Refusal ⊎ Option UsageWindow)
          → ((o : Option UsageWindow) → f ≡ inr o → OfKind five_hour o)
          → ((o : Option UsageWindow) → w ≡ inr o → OfKind weekly o)
          → elim f [
            | inl r ↦ inl r
            | inr f' ↦ elim w [
              | inl r ↦ inl r
              | inr w' ↦
                  check_snapshot parse_time
                    (record {
                      provider = provider_of req.provider;
                      five_hour_window = f';
                      weekly_window = w';
                    })
                    now
            ]
          ]
            ≡ inr s
          → OfKind five_hour s.five_hour_window × OfKind weekly s.weekly_window
      both (inl r) w a b e = cc
      both (inr f) (inl r) a b e = cc
      both (inr f) (inr w) a b e = check_snapshot-kinds _ s now e (a f refl) (b w refl)

  check_snapshot-IsSnapshot :
      (s u : UsageSnapshot) (now : ℕ) → check_snapshot parse_time s now ≡ inr u → IsSnapshot now u
  unfolding check_snapshot
  check_snapshot-IsSnapshot s u now h = elim (Option-cases (validate_snapshot s now)) [
    | inl e ↦
        let same_one : s ≡ u = ground arith in
        subst (IsSnapshot now) same_one ((validate_snapshot_iff s now).0 e)
    | inr (r, e) ↦ absurd (ground arith)
  ]

  check_windows-IsSnapshot :
      (req : UsageRequest) (now : ℕ) (s : UsageSnapshot)
      → check_windows parse_time req now ≡ inr s
      → IsSnapshot now s
  unfolding check_windows
  check_windows-IsSnapshot req now s =
      both (parse_field parse_time req.five_hour_request five_hour (ascii "five_hour") now)
        (parse_field parse_time req.weekly_request weekly (ascii "weekly") now)
    where
      both :
          (f w : Refusal ⊎ Option UsageWindow)
          → elim f [
            | inl r ↦ inl r
            | inr f' ↦ elim w [
              | inl r ↦ inl r
              | inr w' ↦
                  check_snapshot parse_time
                    (record {
                      provider = provider_of req.provider;
                      five_hour_window = f';
                      weekly_window = w';
                    })
                    now
            ]
          ]
            ≡ inr s
          → IsSnapshot now s
      both (inl r) w e = cc
      both (inr f) (inl r) e = cc
      both (inr f) (inr w) e = check_snapshot-IsSnapshot _ s now e

  body_request :
      (content_type : Text) (body : Body UsageRequest) (now : ℕ) (s : UsageSnapshot)
      → check_body parse_time content_type body now ≡ inr s
      → (req : UsageRequest) × (check_windows parse_time req now ≡ inr s)
  unfolding check_body check_request
  body_request content_type (decoded req) now s h = (req, ground arith)
  body_request content_type too_large now s h = absurd (ground arith)
  body_request content_type malformed now s h = absurd (ground arith)
  body_request content_type (trailing req) now s h = absurd (ground arith)

  check_body-kinds :
      (content_type : Text) (body : Body UsageRequest) (now : ℕ) (s : UsageSnapshot)
      → check_body parse_time content_type body now ≡ inr s
      → OfKind five_hour s.five_hour_window × OfKind weekly s.weekly_window
  unfolding check_body check_request
  check_body-kinds content_type body now s h =
      let (req, e) = body_request content_type body now s h in check_windows-kinds req now s e

  check_body-IsSnapshot :
      (content_type : Text) (body : Body UsageRequest) (now : ℕ) (s : UsageSnapshot)
      → check_body parse_time content_type body now ≡ inr s
      → IsSnapshot now s
  check_body-IsSnapshot content_type body now s h =
      let (req, e) = body_request content_type body now s h in check_windows-IsSnapshot req now s e

module _ (parse_time : Text → Option ℕ) (db : Engine) (combine : ℕ) (d : Device) (t : List Event)
    (content_type : Text) (body : Body UsageRequest) (now : ℕ) (i j : Text)
    (first_now second_now : ℕ) where
  abbrev answer : List Event × Reply
  answer = handle_usage parse_time db combine d t content_type body now i first_now j second_now

  abbrev answered : Refusal ⊎ UsageSnapshot → List Event × Reply
  answered c = elim c [
    | inl (status, code, detail) ↦ (t, failure status code detail)
    | inr s ↦
        persist db d s.provider combine t
          ((s.five_hour_window, i, first_now) ∷ (s.weekly_window, j, second_now) ∷ [])
  ]

  -- On a well-formed table, an acknowledged submission is a valid snapshot (a known provider, and
  -- windows of their kinds with a percentage up to 100 and a reset time that is not stale), and each
  -- of its windows has a row of the device's user with the provider, the window kind and the reset
  -- time that were submitted.
  pub usage-persisted :
      IsTable t
      → answer.1 ≡ accepted
      → (s : UsageSnapshot) × (check_body parse_time content_type body now ≡ inr s)
        × IsSnapshot now s
        × Stored d s.provider s.five_hour_window answer.0
        × Stored d s.provider s.weekly_window answer.0
  unfolding handle_usage
  usage-persisted v done =
      let (s, e, first, second) = checked (check_body parse_time content_type body now) refl done in
      (s, e, check_body-IsSnapshot parse_time content_type body now s e, first, second)
    where
      checked :
          (c : Refusal ⊎ UsageSnapshot)
          → check_body parse_time content_type body now ≡ c
          → (answered c).1 ≡ accepted
          → (s : UsageSnapshot) × (c ≡ inr s)
            × Stored d s.provider s.five_hour_window (answered c).0
            × Stored d s.provider s.weekly_window (answered c).0
      checked (inl r) e done = cc
      checked (inr s) e done =
          let (f, w) = check_body-kinds parse_time content_type body now s e in
          let (first, second) =
            windows-Stored db d s.provider combine t s.five_hour_window s.weekly_window i j
              first_now second_now f w v done in
          (s, refl, first, second)

  -- On a well-formed table, every other answer than 200 and the 500 of a failed upsert leaves the
  -- table as it was, and the table stays well formed whatever the answer is.
  pub usage-answers :
      IsTable t
      → ((answer.1 ≡ accepted)
          ⊎ (answer.1 ≡ failure 500 (ascii "persistence_failed") [])
          ⊎ (answer.0 ≡ t))
        × IsTable answer.0
  unfolding handle_usage
  usage-answers v = checked (check_body parse_time content_type body now)
    where
      checked :
          (c : Refusal ⊎ UsageSnapshot)
          → (((answered c).1 ≡ accepted)
              ⊎ ((answered c).1 ≡ failure 500 (ascii "persistence_failed") [])
              ⊎ ((answered c).0 ≡ t))
            × IsTable (answered c).0
      checked (inl r) = (inr (inr refl), v)
      checked (inr s) =
          let ws = (s.five_hour_window, i, first_now) ∷ (s.weekly_window, j, second_now) ∷ [] in
          let replied : ((persist db d s.provider combine t ws).1 ≡ accepted)
              ⊎ ((persist db d s.provider combine t ws).1
                  ≡ failure 500 (ascii "persistence_failed") []) =
            persist-reply db d s.provider combine t ws in
          (widen replied, persist-IsTable db d s.provider combine t ws v)
