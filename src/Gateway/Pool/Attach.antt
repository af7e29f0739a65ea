-- ===== src/Gateway/Pool/Attach.antt =====
-- internal/gateway/pool.go: the items, the routes and the bindings of a pool say the same, and it stays
-- so when sessions are attached.
use voce.Prelude.{
  ℕ, ◌<◌, ◌≡◌, refl, sym, ◌∙◌, if◌then◌else◌, ◌&&◌, String, Bool, true, false, ◌==◌, Option, none,
  some, is_some, List, [], ◌∷◌, all, arith, inl, inr, Option-cases, eq_iff, str_eq,
}
use voce.Prelude.Maps.{lookup, insert, lookup-insert}
use voce.Gateway.Pool.{
  PooledConnection, Pool, is_full, select_locked, find, revise, take_session, refresh,
  attach_locked, assign_pending, assign_pending_locked,
}
use voce.Gateway.Pool.Items.{distinct, find-revise, distinct-revise, all-revise, all-find}
use voce.Gateway.Pool.Select.{select_locked-least}
use voce.Gateway.Pool.Sound.{sound, take_session-sound}

-- The item of the connection has the session.
unfoldable pub holds : String → ℕ → List PooledConnection → Bool
holds k c is = elim (find c is) [ none ↦ false | some i ↦ is_some (lookup k i.sessions) ]

-- The session's route leads to the connection.
unfoldable pub leads : String → ℕ → List (String × ℕ) → Bool
leads k c routes = elim (lookup k routes) [ none ↦ false | some d ↦ d == c ]

abbrev pub target : Option (Option ℕ) → Option ℕ
target none = none
target (some b) = b

-- The routes are those of the items' sessions, and each binding has the connection of its session's
-- route, none without a route.
pub record IsConsistent (p : Pool) : Type 0 where
  pub room : 0 < p.max_sessions
  pub items : all (sound p.max_sessions) p.connections ≡ true
  pub apart : distinct p.connections ≡ true
  pub routed : (k : String) (c : ℕ) → holds k c p.connections ≡ leads k c p.routes
  pub bound : (k : String) → lookup k p.routes ≡ target (lookup k p.bindings)

conn-take_session :
    (most : ℕ) (key : String) (i : PooledConnection) → (take_session most key i).conn ≡ i.conn
unfolding take_session refresh
conn-take_session most key i = refl

sessions-take_session :
    (most : ℕ) (key k : String) (i : PooledConnection)
    → lookup k (take_session most key i).sessions
      ≡ (if str_eq key k then some tt else lookup k i.sessions)
unfolding take_session refresh
sessions-take_session most key k i = lookup-insert key k tt i.sessions

holds-take_session :
    (most : ℕ) (key k : String) (c d : ℕ) (i : PooledConnection) (is : List PooledConnection)
    → find c is ≡ some i
    → holds k d (revise c (take_session most key) is)
      ≡ (if (c == d) && str_eq key k then true else holds k d is)
unfolding holds
holds-take_session most key k c d i is h = ground (
  arith,
  h,
  find-revise c d (take_session most key) is (conn-take_session most key),
  sessions-take_session most key k i,
)

leads-insert :
    (key k : String) (c d : ℕ) (routes : List (String × ℕ))
    → leads k d (insert key c routes) ≡ (if str_eq key k then c == d else leads k d routes)
unfolding leads
leads-insert key k c d routes = ground (arith, lookup-insert key k c routes)

unheld :
    (key : String) (i : PooledConnection) (p : Pool)
    → find i.conn p.connections ≡ some i
    → lookup key p.routes ≡ none
    → IsConsistent p
    → lookup key i.sessions ≡ none
unfolding holds leads
unheld key i p found unrouted v = ground (arith, found, unrouted, v.routed key i.conn)

attach_routed :
    (key k : String) (d : ℕ) (i : PooledConnection) (p : Pool)
    → find i.conn p.connections ≡ some i
    → lookup key p.routes ≡ none
    → IsConsistent p
    → (if (i.conn == d) && str_eq key k then true else holds k d p.connections)
      ≡ (if str_eq key k then i.conn == d else leads k d p.routes)
unfolding leads
attach_routed key k d i p found unrouted v = ground (arith, unrouted, eq_iff key k, v.routed k d)

pub attach_locked-IsConsistent :
    (key : String) (i : PooledConnection) (p : Pool)
    → find i.conn p.connections ≡ some i
    → is_full i ≡ false
    → lookup key p.routes ≡ none
    → IsConsistent p
    → IsConsistent (attach_locked key i.conn p)
unfolding attach_locked
attach_locked-IsConsistent key i p found free unrouted v =
    let takes = take_session p.max_sessions key in
    record {
      room = v.room;
      items =
          all-revise (sound p.max_sessions) i.conn takes p.connections
            (λ j g. ground (
              arith,
              found,
              g,
              free,
              unheld key i p found unrouted v,
              all-find (sound p.max_sessions) i.conn i p.connections v.items found,
              take_session-sound p.max_sessions key i,
            ))
            v.items;
      apart =
          distinct-revise i.conn takes p.connections (conn-take_session p.max_sessions key) v.apart;
      routed = λ k d.
          holds-take_session p.max_sessions key k i.conn d i p.connections found
          ∙ attach_routed key k d i p found unrouted v
          ∙ sym (leads-insert key k i.conn d p.routes);
      bound = λ k. ground (
        arith,
        v.bound k,
        lookup-insert key k i.conn p.routes,
        lookup-insert key k (some i.conn) p.bindings,
      );
    }

assign_nothing : (p : Pool) → assign_pending [] p ≡ p
unfolding assign_pending
assign_nothing p = refl

assign_routed :
    (key : String) (b : Option ℕ) (c : ℕ) (bs : List (String × Option ℕ)) (p : Pool)
    → lookup key p.routes ≡ some c
    → assign_pending ((key, b) ∷ bs) p ≡ assign_pending bs p
unfolding assign_pending
assign_routed key b c bs p e = ground (arith, e)

assign_stopped :
    (key : String) (b : Option ℕ) (bs : List (String × Option ℕ)) (p : Pool)
    → lookup key p.routes ≡ none
    → select_locked p ≡ none
    → assign_pending ((key, b) ∷ bs) p ≡ p
unfolding assign_pending
assign_stopped key b bs p e g = ground (arith, e, g)

assign_attached :
    (key : String) (b : Option ℕ) (i : PooledConnection) (bs : List (String × Option ℕ)) (p : Pool)
    → lookup key p.routes ≡ none
    → select_locked p ≡ some i
    → assign_pending ((key, b) ∷ bs) p ≡ assign_pending bs (attach_locked key i.conn p)
unfolding assign_pending
assign_attached key b i bs p e g = ground (arith, e, g)

-- What each attachment of an unrouted session to the chosen item keeps, the loop keeps.
pub assign_pending_keeps :
    (P : Pool → Type 0)
    → ((key : String) (i : PooledConnection) (p : Pool)
        → select_locked p ≡ some i
        → lookup key p.routes ≡ none
        → P p
        → P (attach_locked key i.conn p))
    → (bs : List (String × Option ℕ)) (p : Pool) → P p
    → P (assign_pending bs p)
assign_pending_keeps P step [] p v = rw (assign_nothing p) v
assign_pending_keeps P step ((key, b) ∷ bs) p v = elim (Option-cases (lookup key p.routes)) [
  | inr (c, e) ↦ rw (assign_routed key b c bs p e) (assign_pending_keeps P step bs p v)
  | inl e ↦ elim (Option-cases (select_locked p)) [
    | inl g ↦ rw (assign_stopped key b bs p e g) v
    | inr (i, g) ↦
        rw (assign_attached key b i bs p e g)
          (assign_pending_keeps P step bs (attach_locked key i.conn p) (step key i p g e v))
  ]
]

pub assign_pending_locked-IsConsistent :
    (p : Pool) → IsConsistent p → IsConsistent (assign_pending_locked p)
unfolding assign_pending_locked
assign_pending_locked-IsConsistent p =
    assign_pending_keeps IsConsistent
      (λ key i q g e v.
        let (found, free, _) = select_locked-least q i v.apart g in
        attach_locked-IsConsistent key i q found free e v)
      p.bindings p
