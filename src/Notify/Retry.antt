-- ===== src/Notify/Retry.antt =====
-- The retries of `NotifyStatus` in pkg/broker/callback.go.
use kidp.Prelude.{
  ℕ, zero, suc, ◌+◌, ◌≤◌, ◌<◌, String, ◌≡◌, refl, sym, ◌∙◌, ap, subst, ◌⊎◌, inl, inr,
}
use kidp.Prelude.{Option, none, some, Option-cases, List, [], ◌∷◌, arith}
use kidp.Result.{ok, Error, Result-cases}
use kidp.Api.Meta.{Duration}
use kidp.Time.{seconds}
use kidp.Callbacks.{CallbackRequest, Codec}
use kidp.Client.{HttpRequest, HttpResponse}
use kidp.Notify.{Host, Log, waited, sent, Pass, delivered, stopped, missed, judge, backoff}
use kidp.Notify.{attempt_once, wait_before, pass, notify_loop, notify_status, callback_request}

abbrev pub waits : Log → List Duration
waits [] = []
waits (waited d ∷ log) = d ∷ waits log
waits (sent r ∷ log) = waits log

abbrev pub requests : Log → ℕ
requests [] = 0
requests (waited d ∷ log) = requests log
requests (sent r ∷ log) = suc (requests log)

module _ (host : Host) (codec : Codec) (url : String) (payload : CallbackRequest) where
  -- The newest thing done is a request, and its answer has a status from 200 to 299.
  abbrev pub Delivered : Log → Type 0
  Delivered log =
      (before : Log) × (r : HttpRequest) × (resp : HttpResponse) × (log ≡ sent r ∷ before)
      × (host.send before r ≡ ok resp)
      × (200 ≤ resp.status_code)
      × (resp.status_code < 300)

  attempt_once-Delivered :
      (log : Log)
      → (attempt_once host codec url payload log).0 ≡ delivered
      → Delivered (attempt_once host codec url payload log).1
  unfolding attempt_once judge
  attempt_once-Delivered log h = elim (Result-cases (codec.marshal_callback payload)) [
    | inl (body, e) ↦ elim (Option-cases (host.new_request "POST" url)) [
      | inl f ↦
          let r = callback_request host codec url body (codec.format_time (host.clock log)) in
          elim (Result-cases (host.send log r)) [
            | inl (resp, q) ↦ (log, r, resp, ground arith, q, ground arith, ground arith)
            | inr (x, q) ↦ ground arith
          ]
      | inr (x, f) ↦ ground arith
    ]
    | inr (x, e) ↦ ground arith
  ]

  pub pass_waited :
      (attempt : ℕ) (log : Log)
      → (wait_before host codec attempt log).0 ≡ none
      → pass host codec url payload attempt log
        ≡ attempt_once host codec url payload (wait_before host codec attempt log).1
  unfolding pass
  pass_waited attempt log e = rw (e, pass)

  pass-Delivered :
      (attempt : ℕ) (log : Log)
      → (pass host codec url payload attempt log).0 ≡ delivered
      → Delivered (pass host codec url payload attempt log).1
  unfolding pass
  pass-Delivered attempt log h = elim (Option-cases (wait_before host codec attempt log).0) [
    | inl e ↦
        subst (λ r. Delivered r.1) (sym (pass_waited attempt log e))
          (attempt_once-Delivered (wait_before host codec attempt log).1
            (ap (λ r. r.0) (sym (pass_waited attempt log e)) ∙ h))
    | inr (x, e) ↦ ground arith
  ]

  attempt_once_log :
      (log : Log)
      → (waits (attempt_once host codec url payload log).1 ≡ waits log)
        × (requests (attempt_once host codec url payload log).1 ≤ suc (requests log))
  unfolding attempt_once
  attempt_once_log log = ground arith

  -- A pass waits at most once, for its own backoff, and sends at most one request.
  pass_log :
      (attempt : ℕ) (log : Log)
      → ((waits (pass host codec url payload attempt log).1 ≡ waits log)
          ⊎ (waits (pass host codec url payload attempt log).1 ≡ backoff attempt ∷ waits log))
        × (requests (pass host codec url payload attempt log).1 ≤ suc (requests log))
  unfolding pass wait_before
  pass_log zero log = ground (arith, attempt_once_log log)
  pass_log (suc n) log = elim (Option-cases (host.cancelled log (backoff (suc n)))) [
    | inl e ↦ ground (arith, attempt_once_log (waited (backoff (suc n)) ∷ log))
    | inr (x, e) ↦ ground arith
  ]

  loop_Delivered :
      (total left attempt : ℕ) (last : Option Error) (log : Log)
      → (notify_loop host codec url payload total left attempt last log).0 ≡ none
      → Delivered (notify_loop host codec url payload total left attempt last log).1
  unfolding notify_loop
  loop_Delivered total zero attempt last log h = ground arith
  loop_Delivered total (suc left) attempt last log h =
      go
        (λ e.
          loop_Delivered total left (suc attempt) (some e)
            (pass host codec url payload attempt log).1)
        (pass host codec url payload attempt log).0 refl
    where
      go :
          ((e : Error)
            → (notify_loop host codec url payload total left
                (suc attempt)
                (some e)
                (pass host codec url payload attempt log).1).0
              ≡ none
            → Delivered
                (notify_loop host codec url payload total left
                  (suc attempt)
                  (some e)
                  (pass host codec url payload attempt log).1).1)
          → (end : Pass) → (pass host codec url payload attempt log).0 ≡ end
          → Delivered (notify_loop host codec url payload total (suc left) attempt last log).1
      go rest delivered q = subst (λ l. Delivered l) (ground arith) (pass-Delivered attempt log q)
      go rest (stopped e) q = ground arith
      go rest (missed e) q = subst (λ l. Delivered l) (ground arith) (rest e (ground arith))

  -- One step of the loop, on its log: the pass's, or what the rest makes of it.
  loop_log :
      (total left attempt : ℕ) (last : Option Error) (log : Log)
      → ((notify_loop host codec url payload total (suc left) attempt last log).1
          ≡ (pass host codec url payload attempt log).1)
        ⊎ ((e : Error) × ((pass host codec url payload attempt log).0 ≡ missed e)
            × ((notify_loop host codec url payload total (suc left) attempt last log).1
                ≡ (notify_loop host codec url payload total left
                    (suc attempt)
                    (some e)
                    (pass host codec url payload attempt log).1).1))
  unfolding notify_loop
  loop_log total left attempt last log = go (pass host codec url payload attempt log).0 refl
    where
      go :
          (end : Pass)
          → (pass host codec url payload attempt log).0 ≡ end
          → ((notify_loop host codec url payload total (suc left) attempt last log).1
              ≡ (pass host codec url payload attempt log).1)
            ⊎ ((e : Error) × ((pass host codec url payload attempt log).0 ≡ missed e)
                × ((notify_loop host codec url payload total (suc left) attempt last log).1
                    ≡ (notify_loop host codec url payload total left
                        (suc attempt)
                        (some e)
                        (pass host codec url payload attempt log).1).1))
      go delivered q = inl (ground arith)
      go (stopped e) q = inl (ground arith)
      go (missed e) q = inr (e, q, ground arith)

  loop_requests :
      (total left attempt : ℕ) (last : Option Error) (log : Log)
      → requests (notify_loop host codec url payload total left attempt last log).1
        ≤ left + requests log
  unfolding notify_loop
  loop_requests total zero attempt last log = omega arith
  loop_requests total (suc left) attempt last log = elim (loop_log total left attempt last log) [
    | inl q ↦ ground (arith, pass_log attempt log)
    | inr (e, m, q) ↦ ground (
      arith,
      pass_log attempt log,
      loop_requests total left (suc attempt) (some e) (pass host codec url payload attempt log).1,
    )
  ]

-- A callback that is reported as delivered has been: the last thing done is a request that the
-- manager has answered with a status from 200 to 299.
pub notify_status-Delivered :
    (host : Host) (codec : Codec) (url : String) (payload : CallbackRequest) (log : Log)
    → (notify_status host codec url payload log).0 ≡ none
    → Delivered host codec url payload (notify_status host codec url payload log).1
unfolding notify_status
notify_status-Delivered host codec url payload log h =
    loop_Delivered host codec url payload 3 3 0 none log h

module _ (host : Host) (codec : Codec) (url : String) (payload : CallbackRequest) where
  first_pass-waits : (log : Log) → waits (pass host codec url payload 0 log).1 ≡ waits log
  unfolding pass wait_before
  first_pass-waits log = ground (arith, attempt_once_log host codec url payload log)

  missed_pass-waits :
      (n : ℕ) (log : Log) (e : Error)
      → (pass host codec url payload (suc n) log).0 ≡ missed e
      → waits (pass host codec url payload (suc n) log).1 ≡ backoff (suc n) ∷ waits log
  unfolding pass wait_before
  missed_pass-waits n log e h = elim (Option-cases (host.cancelled log (backoff (suc n)))) [
    | inl c ↦
        ground (arith, attempt_once_log host codec url payload (waited (backoff (suc n)) ∷ log))
    | inr (x, c) ↦ ground arith
  ]

  loop_ends :
      (total attempt : ℕ) (last : Option Error) (log : Log)
      → (notify_loop host codec url payload total 0 attempt last log).1 ≡ log
  unfolding notify_loop
  loop_ends total attempt last log = refl

  third_waits :
      (total : ℕ) (last : Option Error) (log : Log)
      → (waits (notify_loop host codec url payload total 1 2 last log).1 ≡ waits log)
        ⊎ (waits (notify_loop host codec url payload total 1 2 last log).1 ≡ backoff 2 ∷ waits log)
  third_waits total last log = elim (loop_log host codec url payload total 0 2 last log) [
    | inl q ↦ ground (arith, pass_log host codec url payload 2 log)
    | inr (e, m, q) ↦ ground (
      arith,
      pass_log host codec url payload 2 log,
      loop_ends total 3 (some e) (pass host codec url payload 2 log).1,
    )
  ]

  second_waits :
      (total : ℕ) (last : Option Error) (log : Log)
      → (waits (notify_loop host codec url payload total 2 1 last log).1 ≡ waits log)
        ⊎ (waits (notify_loop host codec url payload total 2 1 last log).1 ≡ backoff 1 ∷ waits log)
        ⊎ (waits (notify_loop host codec url payload total 2 1 last log).1
            ≡ backoff 2 ∷ backoff 1 ∷ waits log)
  second_waits total last log = elim (loop_log host codec url payload total 1 1 last log) [
    | inl q ↦ ground (arith, pass_log host codec url payload 1 log)
    | inr (e, m, q) ↦ ground (
      arith,
      missed_pass-waits 0 log e m,
      third_waits total (some e) (pass host codec url payload 1 log).1,
    )
  ]

  first_waits :
      (total : ℕ) (last : Option Error) (log : Log)
      → (waits (notify_loop host codec url payload total 3 0 last log).1 ≡ waits log)
        ⊎ (waits (notify_loop host codec url payload total 3 0 last log).1 ≡ backoff 1 ∷ waits log)
        ⊎ (waits (notify_loop host codec url payload total 3 0 last log).1
            ≡ backoff 2 ∷ backoff 1 ∷ waits log)
  first_waits total last log = elim (loop_log host codec url payload total 2 0 last log) [
    | inl q ↦ ground (arith, first_pass-waits log)
    | inr (e, m, q) ↦ ground (
      arith,
      first_pass-waits log,
      second_waits total (some e) (pass host codec url payload 0 log).1,
    )
  ]

-- A run sends at most three requests, and waits not at all, for one second, or for one second and
-- then two.
pub notify_status-waits :
    (host : Host) (codec : Codec) (url : String) (payload : CallbackRequest) (log : Log)
    → (requests (notify_status host codec url payload log).1 ≤ 3 + requests log)
      × ((waits (notify_status host codec url payload log).1 ≡ waits log)
          ⊎ (waits (notify_status host codec url payload log).1 ≡ seconds 1 ∷ waits log)
          ⊎ (waits (notify_status host codec url payload log).1
              ≡ seconds 2 ∷ seconds 1 ∷ waits log))
unfolding notify_status backoff
notify_status-waits host codec url payload log = (
  loop_requests host codec url payload 3 3 0 none log,
  first_waits host codec url payload 3 none log,
)
