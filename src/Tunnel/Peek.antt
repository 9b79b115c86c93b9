-- ===== src/Tunnel/Peek.antt =====
-- TunnelSession::peek, its read handler, and the inactivity timer. `verify` is
-- ControlSession::verifyPublisherIdentity, which rests on the JWT library.
pub mod Authentic
pub mod Modify
pub mod Kept
pub mod Refused
pub mod Client
pub mod Token
mod Examples
use tunnel_drill.Prelude.{
  ◌≡◌, ◌≤◌, ap, ◌∙◌, take_of_length-le, ℕ, zero, suc, ◌+◌, ◌-◌, ◌%◌, ◌^◌, Bool, true, false, not,
  ◌||◌, List, [], ◌∷◌, ◌++◌, Option, none, some, String, str_eq, ltb, ◌==◌, if◌then◌else◌, length,
  take, drop, Outcome, done, ◌>>=◌, bytes_of,
}
use tunnel_drill.Json.{Json, at, get_string}
use tunnel_drill.Tunnel.{TunnelSession, Service, put, session, lockable}
use tunnel_drill.Tunnel.Close.{cancelled, close}
use tunnel_drill.Tunnel.Link.{Action, inform, Step, connect_tunnels}

-- PublisherToken
pub record PublisherToken : Type 0 where
  pub identity : String
  pub claims : Json

-- sharedpp/include/sharedpp/constants.hpp
abbrev pub publisher_to_broker_prefix : List ℕ
publisher_to_broker_prefix = bytes_of "TUNNEL_BORE_P2B"

abbrev pub starts_with : List ℕ → List ℕ → Bool
starts_with [] xs = true
starts_with (c ∷ cs) [] = false
starts_with (c ∷ cs) (x ∷ xs) = if c == x then starts_with cs xs else false

-- TunnelSession::resetTimer
abbrev pub rearmed : TunnelSession → TunnelSession
rearmed t =
    if t.was_closed then t else if t.timer_was_cancelled then t else record t { timer_armed = true }

abbrev pub modify : (TunnelSession → TunnelSession) → String → Service → Service
modify f id s = elim (session id s) [ none ↦ s | some t ↦ put id (f t) s ]

pub reset_timer : String → Service → Service
reset_timer id s = modify rearmed id s

-- TunnelSession::resetTimer, and whether a call on the timer throws, behind the two early returns.
pub set_timer : ℕ → Bool → String → Service → Outcome Service
unfolding reset_timer
set_timer n false id s = done (reset_timer id s)
set_timer n true id s = elim (session id s) [
  | none ↦ done s
  | some t ↦ if t.was_closed || t.timer_was_cancelled then done s else close n id s
]

-- TunnelSession::peek, up to its handler, and whether `async_read_some` throws.
pub peek : ℕ → Bool → Bool → String → Service → Outcome Service
unfolding set_timer
peek n timer_throws read_throws id s = do
  s' ← set_timer n timer_throws id s
  if read_throws then close n id s' else done s'

-- What the timer's handler is called with: cancelled, another error, or the deadline, which a new
-- wait may have moved on.
pub data Wake : Type 0 where
  aborted failed : Wake
  reached : Bool → Wake

pub on_timer : ℕ → String → Wake → Service → Outcome Service
on_timer n id aborted s = done s
on_timer n id failed s = if lockable id s then close n id s else done s
on_timer n id (reached passed) s =
    if lockable id s then (if passed then close n id s else done s) else done s

-- The completion of the first read: the error code's truth, the bytes, and the identity of the
-- control session, if that is still there.
pub record Read : Type 0 where
  pub error : Bool
  pub bytes : List ℕ
  pub control : Option String

-- What a read delivers of the bytes that wait at the socket: no more than the buffer's size.
abbrev pub fitted : ℕ → Read → Read
fitted size r = record r { bytes = take size r.bytes }

-- The bytes overwrite the front of the buffer that was read into.
abbrev pub received : List ℕ → TunnelSession → TunnelSession
received bytes t = record t { peek_buffer = bytes ++ drop (length bytes) t.peek_buffer }

-- substr(prefix.size() + 1, bytesTransferred - prefix.size() - 1) over std::size_t.
abbrev pub token_text : ℕ → List ℕ → List ℕ
token_text n buffer =
    let p = length publisher_to_broker_prefix in
    take ((n + 2 ^ 64 - p - 1) % 2 ^ 64) (drop (p + 1) buffer)

abbrev pub closing : ℕ → String → Service → Step
closing n id s = do s' ← close n id s; done (s', [])

abbrev pub as_client : ℕ → TunnelSession → TunnelSession
as_client n t = record t { peek_buffer = take n t.peek_buffer; is_publisher_side = false }

-- A connection that does not look like the publisher's: the publisher is told of it.
on_client : ℕ → String → Service → Step
on_client n id s = done (modify (as_client n) id s, inform s.service_id id ∷ [])

abbrev pub cleared : Bool → TunnelSession → TunnelSession
cleared side t = record t { peek_buffer = []; is_publisher_side = side }

-- What follows a token that was verified: it must be the identity of the control session.
on_token : ℕ → String → String → PublisherToken → Service → Step
on_token n id control token s =
    if not (str_eq token.identity control)
    then closing n id s
    else elim (get_string (at "tunnelId" token.claims)) [
      | none ↦ closing n id s
      | some client ↦ connect_tunnels n client id s
    ]

abbrev pub buffer_of : Option TunnelSession → List ℕ
buffer_of none = []
buffer_of (some t) = t.peek_buffer

abbrev side_of : Option TunnelSession → Bool
side_of none = false
side_of (some t) = t.is_publisher_side

module _ (verify : List ℕ → Option PublisherToken) where
  -- A connection that begins with the publisher's prefix.
  on_publisher : ℕ → String → String → ℕ → List ℕ → Service → Step
  unfolding on_token
  on_publisher n id control count buffer s =
      if ltb (length buffer) (length publisher_to_broker_prefix + 1)
      then closing n id s
      else elim (verify (token_text count buffer)) [
        | none ↦ closing n id (modify (cleared (side_of (session id s))) id s)
        | some token ↦ on_token n id control token (modify (cleared true) id s)
      ]

  on_bytes : ℕ → String → String → ℕ → Service → Step
  unfolding on_publisher on_client
  on_bytes n id control count s =
      if count == 0
      then closing n id s
      else if starts_with publisher_to_broker_prefix (buffer_of (session id s))
      then on_publisher n id control count (buffer_of (session id s)) s
      else on_client count id s

  -- The handler of `async_read_some`, for a read that fits into the buffer.
  pub on_peeked : ℕ → String → Read → Service → Step
  unfolding on_bytes
  on_peeked n id r s =
      let t : Service = modify (received r.bytes) id s in
      if not (lockable id s)
      then done (s, [])
      else if not s.alive
      then closing n id t
      else if r.error
      then closing n id t
      else elim r.control [
        | none ↦ closing n id t
        | some control ↦ on_bytes n id control (length r.bytes) t
      ]

  -- The handler of `async_read_some`, which reads at most as many bytes as the buffer has.
  pub on_peek : ℕ → String → Read → Service → Step
  unfolding on_peeked
  on_peek n id r s = on_peeked n id (fitted (length (buffer_of (session id s))) r) s

  pub on_peek-fitted :
      (n : ℕ) (id : String) (r : Read) (t : TunnelSession) (s : Service)
      → session id s ≡ some t
      → on_peek n id r s ≡ on_peeked n id (fitted (length t.peek_buffer) r) s
  unfolding on_peek
  on_peek-fitted n id r t s e =
      ap (λ (o : Option TunnelSession). on_peeked n id (fitted (length (buffer_of o)) r) s) e

  -- A read that fits is delivered in full.
  pub on_peek-whole :
      (n : ℕ) (id : String) (r : Read) (t : TunnelSession) (s : Service)
      → session id s ≡ some t
      → length r.bytes ≤ length t.peek_buffer
      → on_peek n id r s ≡ on_peeked n id r s
  on_peek-whole n id r t s e f =
      on_peek-fitted n id r t s e
      ∙ ap (λ (b : List ℕ). on_peeked n id (record r { bytes = b }) s)
          (take_of_length-le (length t.peek_buffer) r.bytes f)
