-- ===== src/Broker/Handshake.antt =====
-- Publisher::addServices: all the services that a publisher announces.
use tunnel_drill.Prelude.{
  ℕ, ◌≡◌, sym, ◌∙◌, Bool, true, false, ◌||◌, List, [], ◌∷◌, none, String, str_eq, arith,
}
use tunnel_drill.Prelude.Dict.{lookup, lookup-insert}
use tunnel_drill.Tunnel.{ServiceInfo}
use tunnel_drill.Broker.{Publisher, Start, has_port, add_service, add_services}
use tunnel_drill.Broker.Ports.{DistinctPorts, add_service-DistinctPorts}

-- No later start has this id.
abbrev pub IsUnused : String → List (Start × ServiceInfo) → Type 0
IsUnused id [] = Unit
IsUnused id ((start, info) ∷ rest) = (str_eq id start.id ≡ false) × IsUnused id rest

-- The ids of the generator are new, and no two of them are the same.
abbrev pub AreNew : List (Start × ServiceInfo) → Publisher → Type 0
AreNew [] p = Unit
AreNew ((start, info) ∷ rest) p =
    (lookup start.id p.services ≡ none) × IsUnused start.id rest × AreNew rest p

-- Every service whose start succeeds has its port served.
abbrev pub AreServed : List (Start × ServiceInfo) → Publisher → Type 0
AreServed [] p = Unit
AreServed ((start, info) ∷ rest) p =
    (start.succeeds ≡ true → has_port info.public_port p.services ≡ true) × AreServed rest p

lookup-add_service :
    (lockable : Bool) (start : Start) (info : ServiceInfo) (p : Publisher) (id : String)
    → str_eq start.id id ≡ false
    → lookup id p.services ≡ none
    → lookup id (add_service lockable start info p).0.services ≡ none
unfolding add_service
lookup-add_service lockable start info p id ne e =
    ground (arith, lookup-insert start.id id info p.services)

AreNew-add_service :
    (lockable : Bool) (start : Start) (info : ServiceInfo) (p : Publisher)
    (rest : List (Start × ServiceInfo))
    → IsUnused start.id rest
    → AreNew rest p
    → AreNew rest (add_service lockable start info p).0
AreNew-add_service lockable start info p [] u n = tt
AreNew-add_service lockable start info p ((s, i) ∷ rest) u n = (
  lookup-add_service lockable start info p s.id u.0 n.0,
  n.1,
  AreNew-add_service lockable start info p rest u.1 n.2,
)

-- What follows for the first service from its own result and from the later services.
AreServed-step :
    (lockable : Bool) (start : Start) (info : ServiceInfo) (rest : List (Start × ServiceInfo))
    (p q : Publisher)
    → lookup start.id p.services ≡ none
    → DistinctPorts p.services
    → let r = add_service lockable start info p in
      ((port : ℕ) → has_port port r.0.services ≡ true → has_port port q.services ≡ true)
      → AreServed rest q
      → ((port : ℕ) → has_port port p.services ≡ true → has_port port q.services ≡ true)
        × AreServed ((start, info) ∷ rest) q
AreServed-step lockable start info rest p q new d keep served =
    ((λ port h. keep port (one.3 port h)), ((λ h. keep info.public_port (here h)), served))
  where
    p' : Publisher
    p' = (add_service lockable start info p).0

    one :
        DistinctPorts p'.services
        × ((add_service lockable start info p).1
            ≡ (has_port info.public_port p.services || start.succeeds))
        × ((add_service lockable start info p).1 ≡ has_port info.public_port p'.services)
        × ((port : ℕ) → has_port port p.services ≡ true → has_port port p'.services ≡ true)
    one = add_service-DistinctPorts lockable start info p new d

    started :
        start.succeeds ≡ true → (has_port info.public_port p.services || start.succeeds) ≡ true
    started h = ground arith

    here : start.succeeds ≡ true → has_port info.public_port p'.services ≡ true
    here h = sym one.2 ∙ one.1 ∙ started h

-- After `addServices`, with new and different ids, the public ports are still different, ports that
-- were served still are, and so is the port of each announced service whose start succeeds.
pub add_services-AreServed :
    (lockable : Bool) (l : List (Start × ServiceInfo)) (p : Publisher)
    → AreNew l p
    → DistinctPorts p.services
    → let q = (add_services lockable l p).0 in
      DistinctPorts q.services
      × ((port : ℕ) → has_port port p.services ≡ true → has_port port q.services ≡ true)
      × AreServed l q
unfolding add_services
add_services-AreServed lockable [] p new d = (d, (λ port h. h), tt)
add_services-AreServed lockable ((start, info) ∷ rest) p new d =
    let p' : Publisher = (add_service lockable start info p).0 in
    let later =
      add_services-AreServed lockable rest p'
        (AreNew-add_service lockable start info p rest new.1 new.2)
        ((add_service-DistinctPorts lockable start info p new.0 d).0) in
    let both =
      AreServed-step lockable start info rest p (add_services lockable rest p').0 new.0 d later.1
        later.2 in
    (later.0, both.0, both.1)
