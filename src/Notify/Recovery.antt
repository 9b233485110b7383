-- ===== src/Notify/Recovery.antt =====
-- That `NotifyStatus` in pkg/broker/callback.go reaches a manager which is away for a while.
use kidp.Prelude.{
  ℕ, zero, suc, ◌+◌, ◌≤◌, String, ◌≡◌, refl, sym, ◌∙◌, ap, subst, ◌⊎◌, inl, inr, true, Bool-cases,
  arith,
}
use kidp.Prelude.{Option, none, some, ◌∷◌}
use kidp.Result.{Result, ok, err, Error, errorf_int, wrapf}
use kidp.Api.Meta.{Duration}
use kidp.Callbacks.{CallbackRequest, Codec}
use kidp.BrokerCalls.{is_success}
use kidp.Client.{HttpRequest, HttpResponse}
use kidp.Notify.{
  Host, Log, Pass, delivered, missed, waited, sent, judge, backoff, callback_request, attempt_once,
  wait_before, pass, notify_loop, notify_status,
}
use kidp.Notify.Retry.{requests, pass_waited}

-- The manager answers with success once it has been sent two requests.
abbrev pub AwayTwice : Host → Type 0
AwayTwice host =
    (log : Log) (r : HttpRequest)
    → 2 ≤ requests log
    → (resp : HttpResponse) × (host.send log r ≡ ok resp) × (is_success resp.status_code ≡ true)

module _ (host : Host) (codec : Codec) (url : String) (payload : CallbackRequest) (body : String)
    (marshalled : codec.marshal_callback payload ≡ ok body)
    (made : host.new_request "POST" url ≡ none) where
  -- The end of an attempt that can be made.
  abbrev Tried : Log → Pass × Log → Type 0
  Tried log r =
      (requests r.1 ≡ suc (requests log)) × ((r.0 ≡ delivered) ⊎ ((e : Error) × (r.0 ≡ missed e)))

  judge_tries :
      (answer : Result HttpResponse)
      → (judge answer ≡ delivered) ⊎ ((e : Error) × (judge answer ≡ missed e))
  unfolding judge
  judge_tries (err e) = inr (wrapf "callback request failed" e, refl)
  judge_tries (ok resp) = elim (Bool-cases (is_success resp.status_code)) [
    | inl good ↦ inl (ground arith)
    | inr bad ↦ inr (errorf_int "callback returned status" resp.status_code, ground arith)
  ]

  pub attempt_once_lem :
      (log : Log)
      → let r = callback_request host codec url body (codec.format_time (host.clock log)) in
        attempt_once host codec url payload log ≡ (judge (host.send log r), sent r ∷ log)
  unfolding attempt_once
  attempt_once_lem log = rw (marshalled, made, attempt_once)

  attempt_once-Tried : (log : Log) → Tried log (attempt_once host codec url payload log)
  attempt_once-Tried log = subst (Tried log) (sym (attempt_once_lem log)) (
    refl,
    judge_tries
        (host.send log (callback_request host codec url body (codec.format_time (host.clock log)))),
  )

  attempt_accepted :
      AwayTwice host
      → (log : Log) → 2 ≤ requests log
      → (attempt_once host codec url payload log).0 ≡ delivered
  unfolding attempt_once judge
  attempt_accepted recovers log n =
      let (resp, q, good) =
        recovers log (callback_request host codec url body (codec.format_time (host.clock log)))
          n in
      rw (marshalled, made, q, good, attempt_once, judge)

  module _ (patient : (log : Log) (d : Duration) → host.cancelled log d ≡ none) where
    wait_before_lem :
        (n : ℕ) (log : Log)
        → wait_before host codec (suc n) log ≡ (none, waited (backoff (suc n)) ∷ log)
    unfolding wait_before
    wait_before_lem n log = rw (patient log (backoff (suc n)), wait_before)

    -- The wait before a pass, which sends nothing.
    waits_through :
        (attempt : ℕ) (log : Log)
        → (log' : Log) × (requests log' ≡ requests log)
          × (pass host codec url payload attempt log ≡ attempt_once host codec url payload log')
    unfolding pass wait_before
    waits_through zero log = (log, refl, refl)
    waits_through (suc n) log = (
      waited (backoff (suc n)) ∷ log,
      refl,
      pass_waited host codec url payload (suc n) log
            (ap (λ (w : Option Error × Log). w.0) (wait_before_lem n log))
          ∙ ap (λ (w : Option Error × Log). attempt_once host codec url payload w.1)
              (wait_before_lem n log),
    )

    pass-Tried : (attempt : ℕ) (log : Log) → Tried log (pass host codec url payload attempt log)
    pass-Tried attempt log =
        let (log', n, same) = waits_through attempt log in
        let (more, end) = attempt_once-Tried log' in
        subst (Tried log) (sym same) (more ∙ ap suc n, end)

    pass_accepted :
        AwayTwice host
        → (attempt : ℕ) (log : Log) → 2 ≤ requests log
        → (pass host codec url payload attempt log).0 ≡ delivered
    pass_accepted recovers attempt log h =
        let (log', n, same) = waits_through attempt log in
        ap (λ (r : Pass × Log). r.0) same ∙ attempt_accepted recovers log' (omega (arith, n, h))

    module _ (recovers : AwayTwice host) (total : ℕ) where
      delivers :
          (left attempt : ℕ) (last : Option Error) (log : Log)
          → (pass host codec url payload attempt log).0 ≡ delivered
          → (notify_loop host codec url payload total (suc left) attempt last log).0 ≡ none
      unfolding notify_loop
      delivers left attempt last log q = rw (q, notify_loop)

      goes_on :
          (left attempt : ℕ) (last : Option Error) (log : Log) (e : Error)
          → (pass host codec url payload attempt log).0 ≡ missed e
          → notify_loop host codec url payload total (suc left) attempt last log
            ≡ notify_loop host codec url payload total left
                (suc attempt)
                (some e)
                (pass host codec url payload attempt log).1
      unfolding notify_loop
      goes_on left attempt last log e q = rw (q, notify_loop)

      loop_recovers :
          (left attempt : ℕ) (last : Option Error) (log : Log)
          → 2 ≤ left + requests log
          → (notify_loop host codec url payload total (suc left) attempt last log).0 ≡ none
      loop_recovers zero attempt last log h =
          delivers 0 attempt last log (pass_accepted recovers attempt log (omega arith))
      loop_recovers (suc left) attempt last log h =
          let (more, end) = pass-Tried attempt log in
          elim end [
            | inl q ↦ delivers (suc left) attempt last log q
            | inr (e, q) ↦
                ap (λ (r : Option Error × Log). r.0) (goes_on (suc left) attempt last log e q)
                ∙ loop_recovers left (suc attempt) (some e)
                    (pass host codec url payload attempt log).1 (omega (arith, more, h))
          ]

-- A callback gets through to a manager that fails, in whatever way, twice at most: where the
-- manager answers with success once it has been sent two requests, `NotifyStatus` ends without an
-- error, if the request can be made and the context ends no wait.
pub notify_status_recovers :
    (host : Host) (codec : Codec) (url : String) (payload : CallbackRequest) (body : String)
    (log : Log)
    → codec.marshal_callback payload ≡ ok body
    → host.new_request "POST" url ≡ none
    → ((log : Log) (d : Duration) → host.cancelled log d ≡ none)
    → AwayTwice host
    → (notify_status host codec url payload log).0 ≡ none
unfolding notify_status
notify_status_recovers host codec url payload body log marshalled made patient recovers =
    loop_recovers host codec url payload body marshalled made patient recovers 3 2 0 none log
      (omega arith)
