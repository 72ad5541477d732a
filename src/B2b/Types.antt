-- ===== src/B2b/Types.antt =====
-- The data of the call controller: its states (sippy/B2B/States.py), routes (sippy/B2B/Route.py), the
-- configuration that it reads, and the attributes of CallController.
use b2bua.Prelude.{ℕ, String, Bool, Option, List}
use b2bua.Sip.Message.{Url, Header}
use b2bua.Ua.Types.{State, Event, TryData}

pub data CcState : Type 0 where
  idle wait_route ar_complete connected dead disconnecting : CcState

-- An address of `getaddrinfo`: whether its family is AF_INET6, the host and the port.
pub record Addr : Type 0 where
  pub inet6 : Bool
  pub host : String
  pub port : ℕ

-- `crt_set`: a Boolean, or the credit time that `customize` puts in its place.
pub data CrtSet : Type 0 where
  flag : Bool → CrtSet
  time : Option ℕ → CrtSet

-- `hostport`, as far as it is compared: DST_SIP_UA, DST_WSS_UA, or an address.
pub data Hostport : Type 0 where
  sip_ua wss_ua : Hostport
  address : String → Hostport

-- B2BRoute. `params` has a field for each key that is read; `gt` is given by its two numbers.
pub record Route : Type 0 where
  pub rnum : ℕ
  pub hostport : Hostport
  pub hostonly : String
  pub ainfo : Option (List Addr)
  pub cld : Option String
  pub cld_set : Bool
  pub cli : Option String
  pub cli_set : Bool
  pub credit_time : Option ℕ
  pub crt_set : CrtSet
  pub expires : Option ℕ
  pub no_progress_expires : Option ℕ
  pub no_reply_expires : Option ℕ
  pub forward_on_fail : Bool
  pub user : Option String
  pub passw : Option String
  pub pass_auth : Bool
  pub extra_headers : Option (List Header)
  pub huntstop_scodes : Option (List ℕ)
  pub caller_name : Option (Option String)
  pub rtpp : Option Bool
  pub outbound_proxy : Option (String × ℕ)
  pub po_proc : Option ℕ
  pub gt : Option (ℕ × ℕ)
  pub group_timeout : Option (ℕ × ℕ)
  pub bill_to : Option String
  pub bill_cli : Option (Option String)
  pub bill_cld : Option (Option String)

-- `_static_routes`: the routes under SRC_PROXY and under the empty key.
pub record StaticRoutes : Type 0 where
  pub for_proxy : Option Route
  pub default : Option Route

-- `req_source`: SRC_WSS, SRC_PROXY, or the host that the request came from.
pub data ReqSource : Type 0 where
  wss proxy : ReqSource
  host : String → ReqSource

-- `global_config`. `tr_in` and `tr_out` are what `re_replace` does by `static_tr_in` and
-- `static_tr_out`, `md5` the digest in hexadecimal, `po_procs` the functions of `po_proc`, and
-- `mark_nated` appends `a=nated:yes` to a body.
pub record Settings (B : Type 0) : Type 0 where
  pub auth_enable : Bool
  pub acct_enable : Bool
  pub hide_call_id : Bool
  pub rtp_proxy : Bool
  pub allowed_pts : Bool
  pub tr_in : Option (String → String)
  pub tr_out : Option (String → String)
  pub static_routes : Option StaticRoutes
  pub max_credit_time : Option ℕ
  pub keepalive_ans : ℕ
  pub keepalive_orig : ℕ
  pub md5 : String → String
  pub po_procs : ℕ → Event B → Event B
  pub mark_nated : B → B

-- The arguments of `RadiusAccounting.setParams`.
pub record Billing : Type 0 where
  pub username : String
  pub cli : Option String
  pub cld : Option String
  pub call_id : Option String
  pub remote_ip : String

-- What `UA(...)` and the assignments after it give the originating leg.
pub record LegSettings : Type 0 where
  pub user : Option String
  pub passw : Option String
  pub nh_address : String × ℕ
  pub nh_transport : Option String
  pub credit_time : Option ℕ
  pub expire_time : Option ℕ
  pub no_progress_time : Option ℕ
  pub no_reply_time : Option ℕ
  pub extra_headers : Option (List Header)
  pub pass_auth : Bool
  pub outbound_proxy : Option (String × ℕ)
  pub keepalive : ℕ
  -- whether the session description hooks are those of the RTP proxy session, and whether
  -- `filter_SDP` comes before the hook for remote ones
  pub through_rtp_proxy : Bool
  pub filtered : Bool

-- What the controller asks of others. A UA is named by its number: 0 is `uaA`.
pub data Command (B : Type 0) : Type 0 where
  tell : ℕ → Event B → Command B
  hang_up : ℕ → ℕ → Option String → Command B
  make_leg : ℕ → LegSettings → Command B
  authorize : String → Option String → Option String → Option String → Option Header → Command B
  cancel_auth : Command B
  start_account : ℕ → Billing → Command B
  account_connect : ℕ → ℕ → Option String → Command B
  account_disconnect : ℕ → ℕ → Option String → ℕ → Command B
  group_timer : ℕ → ℕ → Command B
  remove : Command B

-- A UA as the controller sees it: its state, None before any event, and whether the end of its call
-- is accounted for.
pub record Leg : Type 0 where
  pub state : Option State
  pub accounted : Bool

-- `acctA`: None, a FakeAccounting or a RadiusAccounting.
pub data Account : Type 0 where
  no_account fake radius : Account

-- CallController. `legs` are the UAs by their numbers, `ua_o` is the number of `uaO`, `acct_o` that
-- of the leg whose accounting `acctO` is.
pub record Controller (B : Type 0) : Type 0 where
  pub state : CcState
  pub call_id : Option String
  pub cli : Option String
  pub cld : Option String
  pub caller_name : Option String
  pub e_try : Option (Event B × TryData B)
  pub routes : List Route
  pub remote_ip : String
  pub source : String × ℕ
  pub req_source : ReqSource
  pub req_target : Url
  pub username : String
  pub huntstop_scodes : Option (List ℕ)
  pub pass_headers : List Header
  pub auth_proc : Bool
  pub proxied : Bool
  pub challenge : Option Header
  pub acct_a : Account
  pub acct_a_credit : Option ℕ
  pub acct_o : Option ℕ
  pub rtp_session : Bool
  pub legs : ℕ → Leg
  pub ua_o : Option ℕ
  pub next_leg : ℕ
  pub next_seq : ℕ
  -- the newest first
  pub commands : List (Command B)

-- The exceptions that a handler lets pass.
pub data Fault : Type 0 where
  attribute_error type_error key_error value_error index_error : Fault

pub data Attempt {ℓ} (A : Type ℓ) : Type ℓ where
  ok : A → Attempt A
  err : Fault → Attempt A

infixl 5 ◌>>=◌
abbrev pub ◌>>=◌ {ℓ κ} : {A : Type ℓ} {B : Type κ} → Attempt A → (A → Attempt B) → Attempt B
ok a >>= f = f a
err e >>= f = err e
