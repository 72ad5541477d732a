-- ===== src/Sip/Uri.antt =====
-- SipURL with its text (sippy/SipURL.py): __init__, convertTelURL, parseSipURL, setParams, localStr
-- and getParams. `int` is read of ASCII digits alone. A host, port or transport that SipConf fills in
-- at run time is not among these values, so that a port is always printed.
pub mod RoundTrip
pub mod Whole
use b2bua.Prelude.{
  ℕ, suc, ◌+◌, String, Bool, true, false, Option, none, some, List, [], ◌∷◌, ◌++◌, map, ◌==◌, ltb,
  leb, ◌&&◌, ◌||◌, not, if◌then◌else◌,
}
use b2bua.Sip.Text.{
  Str, codes, same_str, cut, split, prefixed, has_byte, quote, unquote, decimal, read_int,
}

pub record Uri : Type 0 where
  pub scheme : Str
  pub username : Option Str
  pub userparams : List Str
  pub password : Option Str
  pub host : Str
  pub port : Option ℕ
  pub headers : Option (List (Str × Str))
  pub usertype : Option Str
  pub transport : Option Str
  pub ttl : Option ℕ
  pub maddr : Option Str
  pub method : Option Str
  pub tag : Option Str
  pub other : List Str
  pub lr : Bool

-- The exceptions of the parser.
pub data Malformed : Type 0 where
  value_error index_error : Malformed

pub data Parsed {ℓ} (A : Type ℓ) : Type ℓ where
  ok : A → Parsed A
  err : Malformed → Parsed A

infixl 5 ◌>>=◌
abbrev pub ◌>>=◌ {ℓ κ} : {A : Type ℓ} {B : Type κ} → Parsed A → (A → Parsed B) → Parsed B
ok a >>= f = f a
err e >>= f = err e

abbrev pub blank : Uri
blank = record {
  scheme = codes "sip";
  username = none;
  userparams = [];
  password = none;
  host = [];
  port = none;
  headers = none;
  usertype = none;
  transport = none;
  ttl = none;
  maddr = none;
  method = none;
  tag = none;
  other = [];
  lr = false;
}

abbrev pub as_int : Str → Parsed ℕ
as_int s = elim (read_int s) [ none ↦ err value_error | some n ↦ ok n ]

-- `d[k] = v` of a dict, which keeps a key's place.
unfoldable pub set_key : Str → Str → List (Str × Str) → List (Str × Str)
set_key k v [] = (k, v) ∷ []
set_key k v ((j, w) ∷ d) =
    let rest = set_key k v d in if same_str j k then (j, v) ∷ d else (j, w) ∷ rest

-- `k, v = header.split('=')`, for each header.
unfoldable pub read_headers : List Str → List (Str × Str) → Parsed (List (Str × Str))
unfolding set_key
read_headers [] d = ok d
read_headers (h ∷ hs) d = elim (split 61 h).1 [
  | [] ↦ err value_error
  | v ∷ vs ↦ elim vs [
    | [] ↦ read_headers hs (set_key (split 61 h).0 (unquote v) d)
    | _ ∷ _ ↦ err value_error
  ]
]

abbrev pub headers_in : Str → Parsed (Option (List (Str × Str)))
headers_in s = read_headers ((split 38 s).0 ∷ (split 38 s).1) [] >>= λ d. ok (some d)

-- One turn of the loop of setParams.
abbrev pub set_named : Str → Str → Str → Uri → Parsed Uri
set_named p name value u =
    if same_str name (codes "user")
    then ok (record u { usertype = some value })
    else if same_str name (codes "transport")
    then ok (record u { transport = some value })
    else if same_str name (codes "ttl")
    then (as_int value >>= λ n. ok (record u { ttl = some n }))
    else if same_str name (codes "maddr")
    then ok (record u { maddr = some value })
    else if same_str name (codes "method")
    then ok (record u { method = some value })
    else if same_str name (codes "tag")
    then ok (record u { tag = some value })
    else if same_str name (codes "lr")
    then ok (record u { lr = true })
    else ok (record u { other = u.other ++ p ∷ [] })

unfoldable pub set_param : Str → Uri → Parsed Uri
set_param p u = elim (cut 61 p).1 [
  | none ↦ ok (
      if same_str p (codes "lr")
      then record u { lr = true }
      else record u { other = u.other ++ p ∷ [] })
  | some value ↦ set_named p (cut 61 p).0 value u
]

unfoldable pub set_all : List Str → Uri → Parsed Uri
unfolding set_param
set_all [] u = ok u
set_all (p ∷ ps) u = set_param p u >>= λ u1. set_all ps u1

-- setParams, which forgets what was there.
abbrev pub set_params : List Str → Uri → Parsed Uri
set_params ps u = set_all ps (record u {
  usertype = none;
  transport = none;
  ttl = none;
  maddr = none;
  method = none;
  tag = none;
  other = [];
  lr = false;
})

-- The last parameter without what follows a `?`, and that.
unfoldable pub cut_last : Str → List Str → List Str × Option Str
cut_last p [] = ((cut 63 p).0 ∷ [], (cut 63 p).1)
cut_last p (q ∷ ps) = let r = cut_last q ps in (p ∷ r.0, r.1)

abbrev pub with_headers : Option Str → Uri → Parsed Uri
with_headers none u = ok u
with_headers (some s) u = headers_in s >>= λ d. ok (record u { headers = d })

abbrev pub read_params : List Str → Uri → Parsed Uri
read_params [] u = ok u
read_params (p ∷ ps) u = set_params (cut_last p ps).0 u >>= λ u1. with_headers (cut_last p ps).1 u1

-- What is before the `@`.
unfoldable pub read_user : Str → Uri → Uri
read_user s u =
    let user = split 59 (cut 58 s).0 in
    record u { password = (cut 58 s).1; userparams = user.1; username = some (unquote user.0) }

unfoldable pub strip_left : Str → Str
strip_left [] = []
strip_left (c ∷ s) =
    let rest = strip_left s in if (c == 32) || (leb 9 c && leb c 13) then rest else c ∷ s

unfoldable pub strip : Str → Str
unfolding strip_left
strip [] = []
strip (c ∷ s) = strip_right (strip_left (c ∷ s))
  where
    add : ℕ → Str → Str
    add c [] = if (c == 32) || (leb 9 c && leb c 13) then [] else c ∷ []
    add c (d ∷ t) = c ∷ (d ∷ t)

    strip_right : Str → Str
    strip_right [] = []
    strip_right (c ∷ s) = add c (strip_right s)

-- The port: an empty one and one that stands there twice are let through.
abbrev pub read_port : Str → Parsed (Option ℕ)
read_port s = elim (read_int s) [ some n ↦ ok (some n) | none ↦ repaired (strip s) ]
  where
    again : Str × Option Str → Parsed (Option ℕ)
    again (a, none) = err value_error
    again (a, some b) = if same_str a b then (as_int a >>= λ n. ok (some n)) else err value_error

    repaired : Str → Parsed (Option ℕ)
    repaired [] = ok none
    repaired (c ∷ t) = if c == 58 then err value_error else again (cut 58 (c ∷ t))

abbrev pub port_in : Option Str → Parsed (Option ℕ)
port_in none = ok none
port_in (some s) = read_port s

-- The host and the text of the port.
unfoldable pub read_hostport : Bool → Str → Parsed (Str × Option Str)
read_hostport relaxed [] = if relaxed then ok ([], none) else err index_error
read_hostport relaxed (c ∷ s) =
    if c == 91
    then elim (cut 93 (c ∷ s)).1 [
      | none ↦ err index_error
      | some rest ↦ ok ((cut 93 (c ∷ s)).0 ++ codes "]", (cut 58 rest).1)
    ]
    else ok (cut 58 (c ∷ s))

-- Where there are no parameters, headers may follow the host.
abbrev pub host_and_headers : List Str → Str → Str × Option Str
host_and_headers [] s = cut 63 s
host_and_headers (p ∷ ps) s = (s, none)

-- parseSipURL, of what is before the first `@` and after it.
abbrev pub read_rest : Bool → Option Str → Str → Uri → Parsed Uri
read_rest relaxed user dom u =
    let h = host_and_headers (split 59 dom).1 (split 59 dom).0 in
    with_headers h.1 u >>= λ u1.
    (read_hostport relaxed h.0 >>= λ hp.
    (port_in hp.1 >>= λ port.
    read_params (split 59 dom).1
      (record (elim user [ none ↦ u1 | some s ↦ read_user s u1 ]) { host = hp.0; port = port })))

unfoldable pub parse_sip_url : Bool → Str → Uri → Parsed Uri
parse_sip_url relaxed s u = elim (cut 64 s).1 [
  | none ↦ read_rest relaxed none s u
  | some dom ↦ read_rest relaxed (some (cut 64 s).0) dom u
]

abbrev pub lower : ℕ → ℕ
lower c = if leb 65 c && leb c 90 then c + 32 else c

-- `__init__` of a text with the scheme sip or sips; tel is an error where it is not converted.
abbrev pub parse_scheme : Bool → Str → Str → Parsed Uri
parse_scheme relaxed scheme s =
    if same_str scheme (codes "sip") || same_str scheme (codes "sips")
    then parse_sip_url relaxed s (record blank { scheme = scheme })
    else err value_error

unfoldable pub parse : Bool → Str → Parsed Uri
unfolding parse_sip_url
parse relaxed s = elim (cut 58 s).1 [
  | none ↦ parse_scheme relaxed (codes "sip") s
  | some rest ↦ parse_scheme relaxed (map lower (cut 58 s).0) rest
]

-- `USERNAME_SAFE`.
abbrev pub username_safe : Str
username_safe = codes "&=+$,;?/#-_.!~*'()"

abbrev pub user_text : Uri → Str
user_text u = elim u.username [
  | none ↦ []
  | some name ↦
      quote username_safe name
      ++ (prefixed 59 u.userparams
          ++ ((elim u.password [ none ↦ [] | some p ↦ 58 ∷ p ]) ++ codes "@"))
]

abbrev pub opt_param : Str → Option Str → List Str
opt_param name none = []
opt_param name (some v) = (name ++ 61 ∷ v) ∷ []

abbrev pub ttl_text : Option ℕ → Option Str
ttl_text none = none
ttl_text (some n) = some (decimal n)

-- getParams.
unfoldable pub get_params : Uri → List Str
get_params u =
    opt_param (codes "user") u.usertype
    ++ (opt_param (codes "transport") u.transport
        ++ (opt_param (codes "ttl") (ttl_text u.ttl)
            ++ (opt_param (codes "maddr") u.maddr
                ++ (opt_param (codes "method") u.method
                    ++ (opt_param (codes "tag") u.tag
                        ++ (u.other ++ (if u.lr then codes "lr" ∷ [] else [])))))))

unfoldable pub header_texts : List (Str × Str) → List Str
header_texts [] = []
header_texts ((k, v) ∷ d) = (k ++ 61 ∷ quote (codes "/") v) ∷ header_texts d

abbrev pub joined : List Str → Str
joined [] = []
joined (h ∷ hs) = 63 ∷ (h ++ prefixed 38 hs)

abbrev pub headers_text : Option (List (Str × Str)) → Str
headers_text none = []
headers_text (some d) = joined (header_texts d)

-- localStr() without a local address.
unfoldable pub local_str : Uri → Str
unfolding get_params header_texts
local_str u =
    u.scheme
    ++ 58
      ∷ (user_text u
          ++ (u.host
              ++ ((elim u.port [ none ↦ [] | some n ↦ 58 ∷ decimal n ])
                  ++ (prefixed 59 (get_params u) ++ headers_text u.headers))))

-- getCopy, which hands over everything but the scheme.
abbrev pub get_copy : Uri → Uri
get_copy u = record u { scheme = codes "sip" }
