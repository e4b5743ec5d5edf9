-- ===== src/Uploads/Stream.antt =====
-- An ASGI application behind the byte limit: `limited_receive` and `limited_send`, which both
-- middlewares define alike, and what follows the application's return.
use data_analytics_platform.Base.{
  ℕ, ◌+◌, List, [], ◌∷◌, ◌++◌, ◌&&◌, String, Bool, true, false, Option, none, if◌then◌else◌, ltb,
}

-- A message of the client: a part of the body by its size, or another one.
pub data Message : Type 0 where
  body : ℕ → Message
  other : String → Message

-- What `receive` does for the application: a message, or the exception of the limit.
pub data Received : Type 0 where
  got : Message → Received
  too_large : Received

-- An application by what it does next. After an exception it goes on as its handlers say; it may end
-- by returning, by the limit's exception, or by another one.
pub data App : Type 0 where
  receive : (Received → App) → App
  send : String → App → App
  returned raised_too_large raised : App

-- What the client gets: the application's messages, or a rejection by its status.
pub data Sent : Type 0 where
  from_app : String → Sent
  rejection : ℕ → Option ℕ → Sent

pub record Exchange : Type 0 where
  pub sent : List Sent
  pub seen : List Message
  pub request_too_large : Bool
  pub failed : Bool

abbrev pub with_sent : Sent → Exchange → Exchange
with_sent m e = record e { sent = m ∷ e.sent }

abbrev pub with_seen : Message → Exchange → Exchange
with_seen m e = record e { seen = m ∷ e.seen }

abbrev pub ended : Bool → Bool → Exchange
ended flag failed = record { sent = []; seen = []; request_too_large = flag; failed = failed }

-- The bytes after a message.
abbrev pub received_after : ℕ → Message → ℕ
received_after n (body k) = n + k
received_after n (other m) = n

abbrev pub is_body : Message → Bool
is_body (body k) = true
is_body (other m) = false

-- The message that a server gives when the client sends no more.
abbrev pub disconnect : Message
disconnect = other "http.disconnect"

-- The application under the limit, after `n` bytes; the list is what the client still sends.
unfoldable pub run : ℕ → ℕ → Bool → List Message → App → Exchange
run limit n flag ms returned = ended flag false
run limit n flag ms raised_too_large = ended flag false
run limit n flag ms raised = ended flag true
run limit n flag ms (send m app) =
    let rest = run limit n flag ms app in if flag then rest else with_sent (from_app m) rest
run limit n flag [] (receive k) = with_seen disconnect (run limit n flag [] (k (got disconnect)))
run limit n flag (m ∷ ms) (receive k) =
    let refused = run limit (received_after n m) true ms (k too_large) in
    let passed = with_seen m (run limit (received_after n m) flag ms (k (got m))) in
    if is_body m && ltb limit (received_after n m) then refused else passed

-- The response of status 413, which follows unless the application raised another exception.
abbrev pub conclude : Exchange → Exchange
conclude e =
    if e.failed
    then e
    else if e.request_too_large
    then record e { sent = e.sent ++ rejection 413 none ∷ [] }
    else e

unfoldable pub serve : ℕ → List Message → App → Exchange
unfolding run
serve limit ms app = conclude (run limit 0 false ms app)

-- The application on its own. The limit's exception is one of its own then.
unfoldable pub alone : List Message → App → Exchange
alone ms returned = ended false false
alone ms raised_too_large = ended false false
alone ms raised = ended false true
alone ms (send m app) = with_sent (from_app m) (alone ms app)
alone [] (receive k) = with_seen disconnect (alone [] (k (got disconnect)))
alone (m ∷ ms) (receive k) = with_seen m (alone ms (k (got m)))
