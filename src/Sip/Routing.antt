-- ===== src/Sip/Routing.antt =====
-- The route set of a dialog: the block of UacStateTrying.updateRoutes, UacStateCancelling.recvResponse
-- and UasStateIdle.recvRequest (sippy/), and the routing of an ACK in
-- sippy/SipTransactionManager.py, incomingResponse.
pub mod Hops
use b2bua.Prelude.{Bool, true, false, Option, none, some, List, [], ◌∷◌, ◌++◌, not, if◌then◌else◌}
use b2bua.Sip.Message.{Url, Target, taddr}

pub record RouteSet : Type 0 where
  pub routes : List Url
  pub rtarget : Url
  pub raddr : Target

-- `rTarget.lr = False; rTarget.other = (); rTarget.headers = ()`.
abbrev pub bare : Url → Url
bare u = record u { lr = false; other = []; headers = [] }

-- The route set from the route headers, in the order in which requests visit them, the remote
-- target and the address used before. `proxied` says that an outbound proxy is set.
unfoldable pub route_dialog : Bool → List Url → Url → Target → RouteSet
route_dialog proxied [] t a = record { routes = []; rtarget = t; raddr = taddr t }
route_dialog proxied (r ∷ rs) t a =
    if not r.lr
    then record { routes = rs ++ t ∷ []; rtarget = r; raddr = taddr r }
    else if proxied
    then record { routes = r ∷ (rs ++ t ∷ []); rtarget = bare r; raddr = a }
    else record { routes = r ∷ rs; rtarget = t; raddr = taddr r }

-- What the ACK of a 2xx is given: its routes, and if any a new request URI and target.
pub record AckRoute : Type 0 where
  pub routes : List Url
  pub rtarget : Option Url
  pub raddr : Option Target

abbrev opt_list : Option Url → List Url
opt_list none = []
opt_list (some u) = u ∷ []

unfoldable pub route_ack : List Url → Option Url → AckRoute
route_ack [] none = record { routes = []; rtarget = none; raddr = none }
route_ack [] (some t) = record { routes = []; rtarget = some t; raddr = some (taddr t) }
route_ack (r ∷ rs) t =
    if not r.lr
    then record { routes = rs ++ opt_list t; rtarget = some r; raddr = some (taddr r) }
    else record { routes = r ∷ rs; rtarget = t; raddr = some (taddr r) }
