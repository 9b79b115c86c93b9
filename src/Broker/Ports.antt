-- ===== src/Broker/Ports.antt =====
-- The services of a publisher have different public ports, and a handshake brings up what it can.
use tunnel_drill.Prelude.{
  ℕ, ◌≡◌, refl, Bool, true, false, ◌||◌, [], ◌∷◌, none, String, ◌==◌, arith, Bool-cases, inl, inr,
}
use tunnel_drill.Prelude.Dict.{lookup, insert}
use tunnel_drill.Tunnel.{ServiceInfo}
use tunnel_drill.Broker.{Publisher, Services, Start, has_port, add_service}

-- No two services listen on one port.
abbrev pub DistinctPorts : Services → Type 0
DistinctPorts [] = Unit
DistinctPorts ((id, info) ∷ rest) = (has_port info.public_port rest ≡ false) × DistinctPorts rest

has_port-insert :
    (port : ℕ) (id : String) (info : ServiceInfo) (l : Services)
    → lookup id l ≡ none
    → has_port port (insert id info l) ≡ (has_port port l || (port == info.public_port))
unfolding has_port insert lookup
has_port-insert port id info [] e = ground arith
has_port-insert port id info ((j, i) ∷ l) e = ground (arith, has_port-insert port id info l)

DistinctPorts-insert :
    (id : String) (info : ServiceInfo) (l : Services)
    → lookup id l ≡ none
    → has_port info.public_port l ≡ false
    → DistinctPorts l
    → DistinctPorts (insert id info l)
unfolding has_port insert lookup
DistinctPorts-insert id info [] e h d = (refl, tt)
DistinctPorts-insert id info ((j, i) ∷ l) e h d =
    ground (arith, DistinctPorts-insert id info l, has_port-insert i.public_port id info l)

-- The generator's ids are new.
abbrev pub IsNew : Start → Publisher → Type 0
IsNew start p = lookup start.id p.services ≡ none

-- `addService` keeps the public ports different. It succeeds exactly when the port was served
-- before or the service starts; then the port is served, and ports that were served still are.
pub add_service-DistinctPorts :
    (lockable : Bool) (start : Start) (info : ServiceInfo) (p : Publisher)
    → IsNew start p
    → DistinctPorts p.services
    → let r = add_service lockable start info p in
      DistinctPorts (r.0).services
      × (r.1 ≡ (has_port info.public_port p.services || start.succeeds))
      × (r.1 ≡ has_port info.public_port (r.0).services)
      × ((port : ℕ) → has_port port p.services ≡ true → has_port port (r.0).services ≡ true)
unfolding add_service
add_service-DistinctPorts lockable start info p new d =
    elim (Bool-cases (has_port info.public_port p.services)) [
      | inl h ↦ simp h (d, refl, refl, λ port k. k)
      | inr h ↦ elim (Bool-cases start.succeeds) [
        | inr f ↦ simp (h, f) (d, refl, refl, λ port k. k)
        | inl t ↦
            simp (h, t)
              (
                DistinctPorts-insert start.id info p.services new h d,
                refl,
                ground (arith, has_port-insert info.public_port start.id info p.services new),
                λ port k. ground (arith, has_port-insert port start.id info p.services new),
              )
      ]
    ]
