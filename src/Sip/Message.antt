-- ===== src/Sip/Message.antt =====
-- What the program reads of parsed SIP messages (sippy/SipURL.py, SipRequest.py, SipResponse.py,
-- SipFrom.py): one field for each header that the call logic looks at. A header that may be absent
-- is an `Option`, one that may be repeated a list. `B` is the type of message bodies.
use b2bua.Prelude.{ℕ, suc, String, Bool, Option, none, some, List, [], ◌∷◌, str_eq, if◌then◌else◌}

-- `getMethod()`.
pub data Method : Type 0 where
  invite ack bye cancel refer info options : Method
  other : String → Method

-- `((host, port), transport)`.
pub record Target : Type 0 where
  pub host : String
  pub port : ℕ
  pub transport : String

-- SipURL, with the fields that routing reads or resets.
pub record Url : Type 0 where
  pub username : Option String
  pub host : String
  pub port : Option ℕ
  pub transport : Option String
  pub lr : Bool
  pub other : List String
  pub headers : List String

abbrev default_port : ℕ
default_port = 5060

abbrev default_transport : String
default_transport = "udp"

abbrev or_else {ℓ} : {A : Type ℓ} → Option A → A → A
or_else none d = d
or_else (some a) d = a

-- SipURL.getTAddr: where a request to this URL is sent.
unfoldable pub taddr : Url → Target
taddr u = record {
  host = u.host;
  port = or_else u.port default_port;
  transport = or_else u.transport default_transport;
}

-- The body of a From or To header: who, and the tag.
pub record Party : Type 0 where
  pub name : Option String
  pub url : Url
  pub tag : Option String

-- A digest challenge (SipWWWAuthenticate, SipProxyAuthenticate).
pub record Challenge : Type 0 where
  pub proxy : Bool
  pub realm : String
  pub nonce : String
  pub algorithm : Option String
  pub qop : Option (List String)

-- What a Refer-To or Also header is made from: an address, or the status code that
-- `UaStateConnected._recvEventRedirect` takes from a redirect event's data.
pub data Referred : Type 0 where
  address : Url → Referred
  status : ℕ → Referred

-- The headers that the call logic adds to a request, and those that pass through it.
pub data Header : Type 0 where
  plain : String → String → Header
  reason : ℕ → String → Header
  warning : String → Header
  authorization : Challenge → Option String → Header
  refer_to also : Referred → Header
  referred_by : Url → Header

-- The header's name, by which `countHFs` counts.
unfoldable pub header_name : Header → String
header_name (plain n _) = n
header_name (reason _ _) = "reason"
header_name (warning _) = "warning"
header_name (authorization c _) = if c.proxy then "proxy-authorization" else "authorization"
header_name (refer_to _) = "refer-to"
header_name (also _) = "also"
header_name (referred_by _) = "referred-by"

-- SipMsg.countHFs.
unfoldable pub count_hfs : String → List Header → ℕ
count_hfs n [] = 0
count_hfs n (h ∷ hs) =
    let rest = count_hfs n hs in if str_eq (header_name h) n then suc rest else rest

-- A request that a UA sends.
pub record Request (B : Type 0) : Type 0 where
  pub method : Method
  pub ruri : Url
  pub to : Option Party
  pub from : Option Party
  pub cseq : ℕ
  pub call_id : Option String
  pub contact : Option Url
  pub routes : List Url
  pub target : Target
  pub max_forwards : Option ℕ
  pub body : Option B
  pub headers : List Header

-- A request that a UA receives.
pub record InRequest (B : Type 0) : Type 0 where
  pub method : Method
  pub rtime : ℕ
  pub cseq : ℕ
  pub call_id : String
  pub from : Party
  pub to : Party
  pub ruri : Url
  pub branch : Option String
  pub contact : Url
  pub record_routes : List Url
  pub auth : Option Header
  pub reason : Option Header
  pub max_forwards : Option ℕ
  pub also : Option Url
  pub refer_to : Option Url
  pub agent : Option String
  pub body : Option B

-- A response that a UA receives.
pub record Response (B : Type 0) : Type 0 where
  pub code : ℕ
  pub phrase : String
  pub rtime : ℕ
  pub cseq : ℕ
  pub method : Method
  pub to_tag : Option String
  pub contacts : List Url
  pub record_routes : List Url
  pub www : List Challenge
  pub proxy : List Challenge
  pub reason : Option Header
  pub agent : Option String
  pub body : Option B

-- SdpParseError and RtpProxyError (SdpHandlingErrors): code, message and `arg`.
pub record SdpError : Type 0 where
  pub code : ℕ
  pub msg : String
  pub arg : String

-- SipHandlingError.getReason.
unfoldable pub get_reason : SdpError → Option Header
get_reason e = if str_eq e.arg "" then none else some (Header.reason e.code e.arg)
