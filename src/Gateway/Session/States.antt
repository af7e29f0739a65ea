-- ===== src/Gateway/Session/States.antt =====
-- internal/gateway/session.go: the states of a session over everything that happens to it.
use voce.Prelude.{
  ℕ, suc, ◌+◌, ◌-◌, ◌<◌, ◌^◌, ◌≡◌, refl, Bool, true, false, ◌==◌, ◌&&◌, ltb, if◌then◌else◌, Option,
  List, [], ◌∷◌, ◌++◌, arith, All, min,
}
use voce.Protocol.PacketType
use voce.Protocol.Packet.{Packet}
use voce.Gateway.Connection.{Connection}
use voce.Gateway.Session.{
  SessionState, MachineState, Session, Effect, new_session, acquire, release_loaded, close,
  on_client_open, on_client_close, on_client_ping, on_client_message, dispatch_message,
}

-- A release and a client's close carry the states that they loaded, which need not be the state when
-- they store theirs.
pub data Event : Type 0 where
  acquires : Event
  releases : SessionState → Event
  closes : Bool → Event
  opens : Bool → ℕ → ℕ → Event
  client_closes : SessionState → SessionState → Bool → Event
  pings : ℕ → ℕ → Event
  messages : MachineState → Option Connection → ℕ → Bool → List ℕ → Event
  dispatches : Packet → List ℕ → Event

unfoldable pub happen : Session → Event → Session × List Effect
happen s acquires = ((acquire s).0, [])
happen s (releases loaded) = ((release_loaded loaded s).0, [])
happen s (closes bound) = close bound s
happen s (opens bound now socket) = on_client_open bound now socket s
happen s (client_closes seen loaded bound) = on_client_close seen loaded bound s
happen s (pings now socket) = on_client_ping now socket s
happen s (messages machine conn now binary m) = on_client_message machine conn now binary m s
happen s (dispatches packet m) = dispatch_message packet m s

unfoldable pub run : Session → List Event → Session × List Effect
run s [] = (s, [])
run s (e ∷ es) = let (s', out) = happen s e in let (s'', more) = run s' es in (s'', out ++ more)

abbrev is_closed : SessionState → Bool
is_closed SessionState.closed = true
is_closed _ = false

-- What can begin in a closed session: no client that has acquired the session opens it, and the states
-- that are loaded are closed.
abbrev pub begins_after : Event → Bool
begins_after (opens _ _ _) = false
begins_after (releases loaded) = is_closed loaded
begins_after (client_closes seen loaded _) = is_closed seen && is_closed loaded
begins_after _ = true

-- The control packets to the machine of this type among the effects.
unfoldable pub sent : ℕ → List Effect → ℕ
sent t [] = 0
sent t (Effect.packet_out u ∷ es) = (if u == t then 1 else 0) + sent t es
sent t (_ ∷ es) = sent t es

sent-append : (t : ℕ) (xs ys : List Effect) → sent t (xs ++ ys) ≡ sent t xs + sent t ys
unfolding sent
sent-append t [] ys = omega arith
sent-append t (Effect.packet_out u ∷ xs) ys = omega (arith, sent-append t xs ys)
sent-append t (Effect.close_client u ∷ xs) ys = sent-append t xs ys
sent-append t (Effect.forward u ∷ xs) ys = sent-append t xs ys
sent-append t (Effect.to_client u v ∷ xs) ys = sent-append t xs ys
sent-append t (Effect.pong u ∷ xs) ys = sent-append t xs ys
sent-append t (Effect.delete_session ∷ xs) ys = sent-append t xs ys

-- The events that give a session back to the next client.
abbrev pub gives_back : Event → Bool
gives_back (releases _) = true
gives_back (client_closes _ _ _) = true
gives_back _ = false

happen_closed :
    (s : Session) (e : Event) (t : ℕ)
    → s.state ≡ SessionState.closed
    → begins_after e ≡ true
    → ((happen s e).0.state ≡ SessionState.closed) × (sent t (happen s e).1 ≡ 0)
unfolding happen sent acquire release_loaded close on_client_open on_client_close on_client_ping
    on_client_message dispatch_message
happen_closed s acquires t h o = ground arith
happen_closed s (releases loaded) t h o = ground arith
happen_closed s (closes bound) t h o = ground arith
happen_closed s (opens bound now socket) t h o = absurd (cc o)
happen_closed s (client_closes seen loaded bound) t h o = ground arith
happen_closed s (pings now socket) t h o = ground arith
happen_closed s (messages machine conn now binary m) t h o = ground arith
happen_closed s (dispatches packet m) t h o = ground arith

-- A closed session stays closed and sends its machine no more control packets, whatever begins after
-- the close but a client's opening: a release or a client's close that loaded the state before it is
-- left out.
pub run_closed :
    (s : Session) (es : List Event) (t : ℕ)
    → s.state ≡ SessionState.closed
    → All (λ e. begins_after e ≡ true) es
    → ((run s es).0.state ≡ SessionState.closed) × (sent t (run s es).1 ≡ 0)
unfolding run sent
run_closed s [] t h all = (h, refl)
run_closed s (e ∷ es) t h all =
    let (still, none_sent) = happen_closed s e t h all.0 in
    let (stays, no_more) = run_closed (happen s e).0 es t still all.1 in
    (
      stays,
      omega (arith, sent-append t (happen s e).1 (run (happen s e).0 es).1, none_sent, no_more),
    )

happen_held :
    (s : Session) (e : Event)
    → (acquire s).1 ≡ false
    → gives_back e ≡ false
    → (acquire (happen s e).0).1 ≡ false
unfolding happen acquire close on_client_open on_client_ping on_client_message dispatch_message
happen_held s acquires h o = ground arith
happen_held s (releases loaded) h o = absurd (cc o)
happen_held s (closes bound) h o = ground arith
happen_held s (opens bound now socket) h o = ground arith
happen_held s (client_closes seen loaded bound) h o = absurd (cc o)
happen_held s (pings now socket) h o = ground arith
happen_held s (messages machine conn now binary m) h o = ground arith
happen_held s (dispatches packet m) h o = ground arith

acquire_twice : (s : Session) → (acquire (acquire s).0).1 ≡ false
unfolding acquire
acquire_twice s = ground arith

held :
    (s : Session) (es : List Event)
    → (acquire s).1 ≡ false
    → All (λ e. gives_back e ≡ false) es
    → (acquire (run s es).0).1 ≡ false
unfolding run
held s [] h all = h
held s (e ∷ es) h all = held (happen s e).0 es (happen_held s e h all.0) all.1

-- Once a client has acquired a session, no other one acquires it until it is released or its client's
-- connection closes.
pub run_held :
    (s : Session) (es : List Event)
    → (acquire s).1 ≡ true
    → All (λ e. gives_back e ≡ false) es
    → (acquire (run (acquire s).0 es).0).1 ≡ false
run_held s es h all = held (acquire s).0 es (acquire_twice s) all

abbrev pub count_opens : List Event → ℕ
count_opens [] = 0
count_opens (opens _ _ _ ∷ es) = suc (count_opens es)
count_opens (_ ∷ es) = count_opens es

-- A client that opens finds the session bound to a connection.
abbrev pub opens_bound : Event → Bool
opens_bound (opens bound _ _) = bound
opens_bound _ = true

happen_resumes :
    (s : Session) (e : Event)
    → opens_bound e ≡ true
    → s.connect_count + count_opens (e ∷ []) < 2 ^ 31
    → ((happen s e).0.connect_count ≡ s.connect_count + count_opens (e ∷ []))
      × (sent PacketType.resume (happen s e).1
          ≡ (if ltb 0 s.connect_count then count_opens (e ∷ []) else 0))
unfolding happen sent acquire release_loaded close on_client_open on_client_close on_client_ping
    on_client_message dispatch_message
happen_resumes s acquires b small = ground arith
happen_resumes s (releases loaded) b small = ground arith
happen_resumes s (closes bound) b small = ground arith
happen_resumes s (opens bound now socket) b small = ground arith
happen_resumes s (client_closes seen loaded bound) b small = ground arith
happen_resumes s (pings now socket) b small = ground arith
happen_resumes s (messages machine conn now binary m) b small = ground arith
happen_resumes s (dispatches packet m) b small = ground arith

count_opens-cons :
    (e : Event) (es : List Event) → count_opens (e ∷ es) ≡ count_opens (e ∷ []) + count_opens es
count_opens-cons (opens bound now socket) es = omega arith
count_opens-cons acquires es = omega arith
count_opens-cons (releases loaded) es = omega arith
count_opens-cons (closes bound) es = omega arith
count_opens-cons (client_closes seen loaded bound) es = omega arith
count_opens-cons (pings now socket) es = omega arith
count_opens-cons (messages machine conn now binary m) es = omega arith
count_opens-cons (dispatches packet m) es = omega arith

run_resumes :
    (s : Session) (es : List Event)
    → All (λ e. opens_bound e ≡ true) es
    → s.connect_count + count_opens es < 2 ^ 31
    → sent PacketType.resume (run s es).1
        + (if ltb 0 s.connect_count then 0 else min 1 (count_opens es))
      ≡ count_opens es
unfolding run sent
run_resumes s [] all small = ground arith
run_resumes s (e ∷ es) all small =
    let parts = count_opens-cons e es in
    let (count, resumed) = happen_resumes s e all.0 (omega (arith, parts, small)) in
    let later = run_resumes (happen s e).0 es all.1 (omega (arith, count, parts, small)) in
    let split = sent-append PacketType.resume (happen s e).1 (run (happen s e).0 es).1 in
    ground (arith, count, resumed, later, split, parts)

-- Over any events of a new session with fewer than 2^31 openings, the machine is told to resume once
-- for each opening after the first, where each finds the session bound to a connection.
pub new_session_resumes :
    (now : ℕ) (es : List Event)
    → All (λ e. opens_bound e ≡ true) es
    → count_opens es < 2 ^ 31
    → sent PacketType.resume (run (new_session now) es).1 ≡ count_opens es - 1
unfolding new_session
new_session_resumes now es all small =
    omega (arith, run_resumes (new_session now) es all (omega (arith, small)))
