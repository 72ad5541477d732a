-- ===== src/B2b/Map/Data.antt =====
-- The data of the map of calls: requests outside dialogs, the configuration, the map itself, and
-- lists of calls.
use b2bua.Prelude.{
  ℕ, String, Bool, true, false, Option, none, some, List, [], ◌∷◌, ◌++◌, ◌==◌, str_eq, ◌&&◌,
  if◌then◌else◌,
}
use b2bua.Sip.Message.{Method, invite, Url, Header, header_name}
use b2bua.B2b.Types.{ReqSource, wss, proxy, host, Settings, Controller}

-- A request that no dialog takes, with the hosts of its Via headers (the first and the second),
-- the source and transport that it came from, and whether it has an Authorization header.
pub record NewRequest : Type 0 where
  pub to_tag : Option String
  pub method : Method
  pub via : String
  pub second_via : Option String
  pub source : String × ℕ
  pub transport : String
  pub has_authorization : Bool
  pub ruri : Url
  pub headers : List Header

-- What the map reads of the configuration. `pre_auth` is `_pre_auth_proc`, and does nothing where
-- there is none.
pub record MapSettings (B : Type 0) : Type 0 where
  pub controller : Settings B
  pub accept_ips : Option (List String)
  pub digest_auth : Bool
  pub digest_auth_only : Bool
  pub pass_headers : List String
  pub pre_auth : Controller B → Controller B

-- `calls` are the controllers by their numbers; `stopped` says that the event loop was broken,
-- `restarted` that the program was started anew.
pub record CallMap (B : Type 0) : Type 0 where
  pub ccmap : List ℕ
  pub calls : ℕ → Controller B
  pub next_call : ℕ
  pub debug_mode : Bool
  pub safe_restart : Bool
  pub safe_stop : Bool
  pub proxy_at : Option ((String × ℕ) × String)
  pub stop_count : ℕ
  pub er_timer : Bool
  pub stopped : Bool
  pub restarted : Bool

-- What `recvRequest` returns: a response with its code, what the UA of a new call returns, or what
-- the proxy does.
pub data Answer : Type 0 where
  respond : ℕ → String → Answer
  by_call : ℕ → Answer
  by_proxy : Answer

abbrev pub source_text : ReqSource → String
source_text wss = "[[WSS]]"
source_text proxy = "[[PROXY]]"
source_text (host h) = h

unfoldable pub text_in : String → List String → Bool
text_in s [] = false
text_in s (t ∷ ts) = let rest = text_in s ts in if str_eq s t then true else rest

abbrev pub is_wss : ReqSource → Bool
is_wss wss = true
is_wss _ = false

abbrev pub same_target : Option ((String × ℕ) × String) → (String × ℕ) × String → Bool
same_target none t = false
same_target (some p) t = str_eq p.0.0 t.0.0 && ((p.0.1 == t.0.1) && str_eq p.1 t.1)

-- `req.getHFs(header)`.
unfoldable pub get_hfs : String → List Header → List Header
get_hfs n [] = []
get_hfs n (h ∷ hs) = let rest = get_hfs n hs in if str_eq (header_name h) n then h ∷ rest else rest

unfoldable pub passed_headers : List String → List Header → List Header
unfolding get_hfs
passed_headers [] hs = []
passed_headers (n ∷ ns) hs = get_hfs n hs ++ passed_headers ns hs

unfoldable pub without : ℕ → List ℕ → List ℕ
without n [] = []
without n (m ∷ ms) = let rest = without n ms in if n == m then ms else m ∷ rest

unfoldable pub is_listed : ℕ → List ℕ → Bool
is_listed n [] = false
is_listed n (m ∷ ms) = let rest = is_listed n ms in if n == m then true else rest

abbrev pub is_empty : List ℕ → Bool
is_empty [] = true
is_empty (x ∷ xs) = false

abbrev pub last_via : NewRequest → String
last_via req = elim req.second_via [ none ↦ req.via | some v ↦ v ]

abbrev pub is_invite : Method → Bool
is_invite invite = true
is_invite _ = false
