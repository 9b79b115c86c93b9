-- ===== src/Registry.antt =====
-- brokerpp/src/brokerpp/request_listener/page_control_provider.cpp, with the parts of
-- control_session.cpp and publisher.cpp that run when a control session comes and goes: which
-- publishers and which control sessions the broker has.
pub mod Reconnect
mod Examples
use tunnel_drill.Prelude.{
  ℕ, Bool, true, false, List, [], ◌∷◌, Option, none, some, String, ◌==◌, if◌then◌else◌,
}
use tunnel_drill.Prelude.Dict.{lookup, insert, erase}
use tunnel_drill.Broker.{Publisher, detach_control_session}

-- PageAndControlProvider::Implementation. Control sessions are numbered as they are made; the table
-- holds the only shared pointer to each.
pub record Registry : Type 0 where
  pub publishers : List (String × Publisher)
  pub control_sessions : List (String × ℕ)

abbrev pub new_publisher : String → Publisher
new_publisher identity = record { identity = identity; services = []; control_session = none }

abbrev found : String → Option Publisher → Registry → Publisher × Registry
found identity none r = (
  new_publisher identity,
  record r { publishers = insert identity (new_publisher identity) r.publishers },
)
found identity (some p) r = (p, r)

-- PageAndControlProvider::obtainPublisher
pub obtain_publisher : String → Registry → Publisher × Registry
obtain_publisher identity r = found identity (lookup identity r.publishers) r

-- A change to the publisher that `obtainPublisher` returns.
with_publisher : String → (Publisher → Publisher) → Registry → Registry
unfolding obtain_publisher
with_publisher identity f r =
    let (p, r') = obtain_publisher identity r in
    record r' { publishers = insert identity (f p) r'.publishers }

-- ControlSession::setup and Publisher::setCurrentControlSession, on the session numbered `n`.
pub setup : String → ℕ → Registry → Registry
unfolding with_publisher
setup identity n = with_publisher identity (λ p. record p { control_session = some n })

-- ControlSession::~ControlSession
pub destroy_session : String → Registry → Registry
unfolding with_publisher
destroy_session identity = with_publisher identity (detach_control_session true)

-- The entry of the table before a write; its session dies with the write.
abbrev replaced : Option ℕ → String → Registry → Registry
replaced none identity r = r
replaced (some old) identity r = destroy_session identity r

-- The handler of the upgrade in PageAndControlProvider::publisher: the new session is set up, and
-- then stored in the table.
pub upgraded : String → ℕ → Registry → Registry
unfolding setup
upgraded identity n r =
    let s : Registry = setup identity n r in
    replaced (lookup identity s.control_sessions) identity
      (record s { control_sessions = insert identity n s.control_sessions })

-- The session's `endSelf`.
pub end_self : String → Registry → Registry
end_self identity r =
    replaced (lookup identity r.control_sessions) identity
      (record r { control_sessions = erase identity r.control_sessions })

-- What a weak pointer of the publisher gives: the session, if the table still holds it.
abbrev pub lock_if : Option ℕ → Option ℕ → Option ℕ
lock_if none held = none
lock_if (some n) none = none
lock_if (some n) (some m) = if n == m then some n else none

abbrev pub pointer_of : Option Publisher → Option ℕ
pointer_of none = none
pointer_of (some p) = p.control_session

-- publisher.getCurrentControlSession().lock()
pub current_session : String → Registry → Option ℕ
current_session identity r =
    lock_if (pointer_of (lookup identity r.publishers)) (lookup identity r.control_sessions)
