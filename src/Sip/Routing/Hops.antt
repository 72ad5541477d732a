-- ===== src/Sip/Routing/Hops.antt =====
-- Where requests in a dialog go: the next hop of a route set, and the ACK beside the other requests.
use b2bua.Prelude.{Bool, true, false, List, [], ◌∷◌, ◌++◌, ◌≡◌, Bool-cases, inl, inr, arith}
use b2bua.Sip.Message.{Url, Target, taddr}
use b2bua.Sip.Routing.{RouteSet, route_dialog}

-- `first rs t`: the first route, and the remote target where there is none.
abbrev pub first_hop : List Url → Url → Url
first_hop [] t = t
first_hop (r ∷ rs) t = r

-- The URLs that a request passes, in order: the routes and then the request URI for loose routing,
-- the request URI and then the routes for strict routing.
abbrev pub path_of : Bool → RouteSet → List Url
path_of true r = r.routes ++ r.rtarget ∷ []
path_of false r = r.rtarget ∷ r.routes

-- Without an outbound proxy a request is sent to the address of the first route, or of the remote
-- target where there is no route, and it passes each route in order and the remote target last,
-- whether the first route is loose or strict.
pub route_dialog_path :
    (rs : List Url) (t : Url) (a : Target)
    → ((route_dialog false rs t a).raddr ≡ taddr (first_hop rs t))
      × (path_of (first_hop rs t).lr (route_dialog false rs t a) ≡ rs ++ t ∷ [])
unfolding route_dialog
route_dialog_path [] t a = elim (Bool-cases t.lr) [ inl e ↦ ground arith | inr e ↦ ground arith ]
route_dialog_path (r ∷ rs) t a = ground arith
