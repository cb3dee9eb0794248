-- ===== src/Server/Register/Listeners.antt =====
-- The table of listeners in signal-server/main.go while clients come and go.
use p2p_tun.Prelude.{List, Option, [], arith, none, refl, some, true, ℕ, ◌↔◌, ◌∷◌, ◌≡◌, ◌≢◌}
use p2p_tun.Prelude.Assoc.{Assoc, Fresh, Fresh-lookup, IsMap, lookup, lookup-erase, lookup-insert}
use p2p_tun.Server.{ServiceMapping, State}
use p2p_tun.Server.Accept.{start_service, start_tcp_service, start_udp_service}
use p2p_tun.Server.Register.{
  Server, end_client, first_answer, later_answers, remove_listener, remove_listeners,
  start_services,
}

start_service_keeps :
    (svc : ServiceMapping) (listened : Option ℕ) (s : State) (port ln : ℕ)
    → lookup port s.listeners ≡ some ln
    → lookup port (start_service svc listened s).1.listeners ≡ some ln
unfolding start_service start_tcp_service start_udp_service lookup
start_service_keeps svc none s port ln e = ground (arith, e)
start_service_keeps svc (some l) s port ln e =
    ground (arith, e, lookup-insert svc.remote_port port l s.listeners)

-- Whatever services a client registers, no listener that is there is replaced.
pub start_services_keeps :
    (svcs : List ServiceMapping) (listened : List (Option ℕ)) (s : State) (port ln : ℕ)
    → lookup port s.listeners ≡ some ln
    → lookup port (start_services svcs listened s).1.listeners ≡ some ln
unfolding start_services
start_services_keeps [] listened s port ln e = e
start_services_keeps (svc ∷ svcs) listened s port ln e =
    start_services_keeps svcs (later_answers listened)
      (start_service svc (first_answer listened) s).1 port ln
      (start_service_keeps svc (first_answer listened) s port ln e)

remove_listener-Fresh : (l k : ℕ) (m : Assoc ℕ) → Fresh k m → Fresh k (remove_listener l m)
unfolding remove_listener
remove_listener-Fresh l k [] f = tt
remove_listener-Fresh l k ((p, ll) ∷ m) f = ground (arith, remove_listener-Fresh l k m f.1)

remove_listener-IsMap : (l : ℕ) (m : Assoc ℕ) → IsMap m → IsMap (remove_listener l m)
unfolding remove_listener
remove_listener-IsMap l [] w = tt
remove_listener-IsMap l ((p, ll) ∷ m) w =
    ground (arith, remove_listener-IsMap l m w.1, remove_listener-Fresh l p m w.0)

remove_listener-keeps :
    (l port x : ℕ) (m : Assoc ℕ)
    → IsMap m
    → lookup port m ≡ some x
    → x ≢ l
    → lookup port (remove_listener l m) ≡ some x
unfolding remove_listener lookup
remove_listener-keeps l port x [] w e n = ground (arith, e)
remove_listener-keeps l port x ((p, ll) ∷ m) w e n =
    ground (arith, e, n, remove_listener-keeps l port x m w.1)

remove_listener-only :
    (l port x : ℕ) (m : Assoc ℕ)
    → IsMap m
    → lookup port (remove_listener l m) ≡ some x
    → (lookup port m ≡ some x) × (x ≢ l)
unfolding remove_listener lookup
remove_listener-only l port x [] w e = ground (arith, e)
remove_listener-only l port x ((p, ll) ∷ m) w e = ground (
  arith,
  e,
  remove_listener-only l port x m w.1,
  Fresh-lookup p (remove_listener l m) (remove_listener-Fresh l p m w.0),
  Fresh-lookup p m w.0,
)

abbrev pub NotIn : ℕ → List ℕ → Type 0
NotIn x [] = Unit
NotIn x (l ∷ ls) = (x ≢ l) × NotIn x ls

remove_listeners-keeps :
    (lns : List ℕ) (port x : ℕ) (m : Assoc ℕ)
    → IsMap m
    → lookup port m ≡ some x
    → NotIn x lns
    → lookup port (remove_listeners lns m) ≡ some x
unfolding remove_listeners
remove_listeners-keeps [] port x m w e n = e
remove_listeners-keeps (l ∷ lns) port x m w e n =
    remove_listeners-keeps lns port x (remove_listener l m) (remove_listener-IsMap l m w)
      (remove_listener-keeps l port x m w e n.0) n.1

remove_listeners-only :
    (lns : List ℕ) (port x : ℕ) (m : Assoc ℕ)
    → IsMap m
    → lookup port (remove_listeners lns m) ≡ some x
    → (lookup port m ≡ some x) × NotIn x lns
unfolding remove_listeners
remove_listeners-only [] port x m w e = (e, tt)
remove_listeners-only (l ∷ lns) port x m w e =
    let (f, n) =
      remove_listeners-only lns port x (remove_listener l m) (remove_listener-IsMap l m w) e in
    let (g, o) = remove_listener-only l port x m w f in (g, (o, n))

-- When a client leaves, a port is still listened on exactly if it was and its listener is none of
-- the client's; the client is stopped and no longer in the map of clients.
pub end_client_releases :
    (conn cid : ℕ) (lns : List ℕ) (s : State) (v : Server) (port x : ℕ)
    → IsMap s.listeners
    → IsMap v.clients
    → ((lookup port (end_client conn cid lns s v).0.listeners ≡ some x)
        ↔ ((lookup port s.listeners ≡ some x) × NotIn x lns))
      × ((end_client conn cid lns s v).0.client.stopped ≡ true)
      × (lookup cid (end_client conn cid lns s v).1.clients ≡ none)
unfolding end_client
end_client_releases conn cid lns s v port x w u = (
  (
    (λ e. remove_listeners-only lns port x s.listeners w e),
    (λ r. remove_listeners-keeps lns port x s.listeners w r.0 r.1),
  ),
  refl,
  ground (arith, lookup-erase cid cid v.clients u),
)
