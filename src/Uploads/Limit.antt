-- ===== src/Uploads/Limit.antt =====
-- The byte limit: a body within it passes unchanged, and no application sees more than it.
use data_analytics_platform.Base.{
  zero, suc, length, ◌<◌, ℕ, ◌+◌, ◌≡◌, ◌≤◌, ◌⊎◌, refl, ap, List, [], ◌∷◌, true, false, none, arith,
  inl, inr, Bool-cases, ltb,
}
use data_analytics_platform.Uploads.Stream.{
  Message, body, other, Received, got, too_large, App, receive, send, returned, raised_too_large,
  raised, from_app, rejection, Exchange, with_sent, with_seen, disconnect, run, conclude, serve,
  alone,
}

-- The bytes of all messages of the body.
abbrev pub body_bytes : List Message → ℕ
body_bytes [] = 0
body_bytes (body k ∷ ms) = k + body_bytes ms
body_bytes (other m ∷ ms) = body_bytes ms

run-alone :
    (limit n : ℕ) (ms : List Message) (app : App)
    → n + body_bytes ms ≤ limit
    → run limit n false ms app ≡ alone ms app
unfolding run alone
run-alone limit n ms returned h = refl
run-alone limit n ms raised_too_large h = refl
run-alone limit n ms raised h = refl
run-alone limit n ms (send m app) h = ap (with_sent (from_app m)) (run-alone limit n ms app h)
run-alone limit n [] (receive k) h =
    ap (with_seen disconnect) (run-alone limit n [] (k (got disconnect)) h)
run-alone limit n (body b ∷ ms) (receive k) h =
    let fits : ltb limit (n + b) ≡ false = ground arith in
    rw fits (ap (with_seen (body b)) (run-alone limit (n + b) ms (k (got (body b))) (omega arith)))
run-alone limit n (other m ∷ ms) (receive k) h =
    ap (with_seen (other m)) (run-alone limit n ms (k (got (other m))) h)

alone_flag : (ms : List Message) (app : App) → (alone ms app).request_too_large ≡ false
unfolding alone
alone_flag ms returned = refl
alone_flag ms raised_too_large = refl
alone_flag ms raised = refl
alone_flag ms (send m app) = alone_flag ms app
alone_flag [] (receive k) = alone_flag [] (k (got disconnect))
alone_flag (m ∷ ms) (receive k) = alone_flag ms (k (got m))

-- For a request whose body has no more bytes than the limit, the limited application does what it does
-- on its own: it gets the same messages, the client gets the same answers, and it ends alike.
pub serve-alone :
    (limit : ℕ) (ms : List Message) (app : App)
    → body_bytes ms ≤ limit
    → serve limit ms app ≡ alone ms app
unfolding serve
serve-alone limit ms app h =
    let same : run limit 0 false ms app ≡ alone ms app = run-alone limit 0 ms app (omega arith) in
    let flag = alone_flag ms app in
    rw same
      (elim (Bool-cases (alone ms app).failed) [ inl e ↦ rw e refl | inr e ↦ rw e (rw flag refl) ])

-- Once the limit is passed, no part of the body passes.
run_stopped :
    (limit n : ℕ) (ms : List Message) (app : App)
    → limit + 1 ≤ n
    → (body_bytes (run limit n true ms app).seen ≡ 0)
      × ((run limit n true ms app).sent ≡ [])
      × ((run limit n true ms app).request_too_large ≡ true)
unfolding run
run_stopped limit n ms returned h = (refl, refl, refl)
run_stopped limit n ms raised_too_large h = (refl, refl, refl)
run_stopped limit n ms raised h = (refl, refl, refl)
run_stopped limit n ms (send m app) h = run_stopped limit n ms app h
run_stopped limit n [] (receive k) h = run_stopped limit n [] (k (got disconnect)) h
run_stopped limit n (body b ∷ ms) (receive k) h =
    let over : ltb limit (n + b) ≡ true = ground arith in
    rw over (run_stopped limit (n + b) ms (k too_large) (omega arith))
run_stopped limit n (other m ∷ ms) (receive k) h = run_stopped limit n ms (k (got (other m))) h

run_bounds :
    (limit n : ℕ) (ms : List Message) (app : App)
    → n ≤ limit
    → n + body_bytes (run limit n false ms app).seen ≤ limit
unfolding run
run_bounds limit n ms returned h = omega arith
run_bounds limit n ms raised_too_large h = omega arith
run_bounds limit n ms raised h = omega arith
run_bounds limit n ms (send m app) h = run_bounds limit n ms app h
run_bounds limit n [] (receive k) h = run_bounds limit n [] (k (got disconnect)) h
run_bounds limit n (body b ∷ ms) (receive k) h = elim (Bool-cases (ltb limit (n + b))) [
  | inl e ↦ rw e (ground (arith, run_stopped limit (n + b) ms (k too_large)))
  | inr e ↦ rw e (ground (arith, run_bounds limit (n + b) ms (k (got (body b)))))
]
run_bounds limit n (other m ∷ ms) (receive k) h = run_bounds limit n ms (k (got (other m))) h

conclude_seen : (e : Exchange) → (conclude e).seen ≡ e.seen
conclude_seen e = elim (Bool-cases e.failed) [
  | inl f ↦ rw f refl
  | inr f ↦ elim (Bool-cases e.request_too_large) [
    | inl t ↦ rw f (rw t refl)
    | inr t ↦ rw f (rw t refl)
  ]
]

-- Whatever the application does, it gets no more bytes of the body than the limit.
pub serve-bounds :
    (limit : ℕ) (ms : List Message) (app : App) → body_bytes (serve limit ms app).seen ≤ limit
unfolding serve
serve-bounds limit ms app = omega (
  arith,
  ap body_bytes (conclude_seen (run limit 0 false ms app)),
  run_bounds limit 0 ms app (omega arith),
)

-- An application that takes this number of messages before it goes on; where a receive raises the
-- exception of the limit, it goes on with what handles the exception.
abbrev on_received : App → Received → App → App
on_received handler (got m) app = app
on_received handler too_large app = handler

pub reads : App → ℕ → App → App
reads handler zero app = app
reads handler (suc n) app = receive (λ r. on_received handler r (reads handler n app))

run-reads :
    (limit n : ℕ) (ms : List Message) (handler app : App)
    → n ≤ limit
    → limit < n + body_bytes ms
    → ((run limit n false ms (reads handler (length ms) app)).sent ≡ [])
      × ((run limit n false ms (reads handler (length ms) app)).request_too_large ≡ true)
unfolding run reads
run-reads limit n [] handler app h k = absurd (omega arith)
run-reads limit n (body b ∷ ms) handler app h k = elim (Bool-cases (ltb limit (n + b))) [
  | inl e ↦
      let (seen, sent, flag) = run_stopped limit (n + b) ms handler (ground arith) in
      rw e (sent, flag)
  | inr e ↦ rw e (run-reads limit (n + b) ms handler app (ground arith) (omega arith))
]
run-reads limit n (other m ∷ ms) handler app h k = run-reads limit n ms handler app h k

-- An application that reads the messages of the request before it answers, where the body has more
-- bytes than the limit, and whatever it does after the limit's exception, its own answer included:
-- the client gets the response 413 and nothing else, or, when the application ends with another
-- exception, gets nothing from the middleware and that exception passes on.
pub serve-reads :
    (limit : ℕ) (ms : List Message) (handler app : App)
    → limit < body_bytes ms
    → let e = serve limit ms (reads handler (length ms) app) in
      ((e.failed ≡ false) × (e.sent ≡ rejection 413 none ∷ []))
      ⊎ ((e.failed ≡ true) × (e.sent ≡ []))
unfolding serve
serve-reads limit ms handler app h =
    let e = run limit 0 false ms (reads handler (length ms) app) in
    let (sent, flag) = run-reads limit 0 ms handler app (omega arith) (omega arith) in
    elim (Bool-cases e.failed) [
      | inl f ↦ inr (rw f f, rw f sent)
      | inr f ↦ inl (rw f (rw flag refl), rw f (rw flag (rw sent refl)))
    ]
