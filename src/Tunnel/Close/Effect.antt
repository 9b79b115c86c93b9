-- ===== src/Tunnel/Close/Effect.antt =====
-- What closing does to the sessions of a service, whatever their pipes: the relation between the
-- state before and after, and how the single writes stand in it.
use tunnel_drill.Prelude.{
  ℕ, ◌+◌, ◌≤◌, ◌≡◌, refl, ◌∙◌, true, false, List, [], ◌∷◌, some, String, str_eq, eq_iff, arith,
  if◌then◌else◌, Bool-cases, inl, inr, is_some,
}
use tunnel_drill.Prelude.Dict.{lookup, insert, lookup-insert}
use tunnel_drill.Tunnel.{
  TunnelSession, Service, put, session, registered, contains, remove, is_closed,
}

-- How many sessions are not yet closed.
abbrev weight : TunnelSession → ℕ
weight t = if t.was_closed then 0 else 1

unfoldable pub open_count : List (String × TunnelSession) → ℕ
open_count [] = 0
open_count ((j, t) ∷ m) = weight t + open_count m

pub open_count-insert :
    (k : String) (t v : TunnelSession) (m : List (String × TunnelSession))
    → lookup k m ≡ some t
    → open_count (insert k v m) + weight t ≡ open_count m + weight v
unfolding open_count lookup insert
open_count-insert k t v [] e = absurd (ground arith)
open_count-insert k t v ((j, u) ∷ m) e = ground (arith, eq_iff j k, open_count-insert k t v m)

pub contains-remove :
    (k j : String) (l : List String)
    → contains j (remove k l) ≡ (if str_eq k j then false else contains j l)
contains-remove k j [] = ground arith
contains-remove k j (i ∷ l) =
    ground (arith, contains-remove k j l, eq_iff i k, eq_iff i j, eq_iff k j)

-- From `s` to `s'` sessions are only closed and unregistered; what was closed on the way is gone
-- from the service's table, and nothing is forgotten.
pub record Effect (s s' : Service) : Type 0 where
  pub alive_same : s'.alive ≡ s.alive
  pub fewer : open_count s'.tunnels ≤ open_count s.tunnels
  pub known : (j : String) → is_some (session j s') ≡ is_some (session j s)
  pub stays : (j : String) → is_closed j s ≡ true → is_closed j s' ≡ true
  pub shrinks : (j : String) → registered j s' ≡ true → registered j s ≡ true
  pub gone :
      (j : String)
      → s.alive ≡ true
      → is_closed j s ≡ false
      → is_closed j s' ≡ true
      → registered j s' ≡ false

pub Effect-refl : (s : Service) → Effect s s
Effect-refl s = record {
  alive_same = refl;
  fewer = omega arith;
  known = λ j. refl;
  stays = λ j e. e;
  shrinks = λ j e. e;
  gone = λ j a e e'. cc;
}

pub not_registered :
    (j : String) (s s' : Service)
    → (registered j s' ≡ true → registered j s ≡ true)
    → registered j s ≡ false
    → registered j s' ≡ false
not_registered j s s' h e = ground arith

pub Effect-trans : {s t u : Service} → Effect s t → Effect t u → Effect s u
Effect-trans {s} {t} {u} a b = record {
  alive_same = b.alive_same ∙ a.alive_same;
  fewer = omega (arith, a.fewer, b.fewer);
  known = λ j. b.known j ∙ a.known j;
  stays = λ j e. b.stays j (a.stays j e);
  shrinks = λ j e. a.shrinks j (b.shrinks j e);
  gone = λ j l e e'. elim (Bool-cases (is_closed j t)) [
    | inl c ↦ not_registered j t u (b.shrinks j) (a.gone j l e c)
    | inr o ↦ b.gone j (a.alive_same ∙ l) o e'
  ];
}

-- A write to a session that leaves `was_closed` as it was.
pub Effect-put :
    (id : String) (t v : TunnelSession) (s : Service)
    → session id s ≡ some t
    → v.was_closed ≡ t.was_closed
    → Effect s (put id v s)
Effect-put id t v s e h = record {
  alive_same = refl;
  fewer = ground (arith, open_count-insert id t v s.tunnels e);
  known = λ j. ground (arith, lookup-insert id j v s.tunnels, eq_iff id j);
  stays = λ j c. ground (arith, lookup-insert id j v s.tunnels, eq_iff id j);
  shrinks = λ j c. c;
  gone = λ j a o c. ground (arith, lookup-insert id j v s.tunnels, eq_iff id j);
}
