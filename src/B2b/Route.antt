-- ===== src/B2b/Route.antt =====
-- B2BRoute (sippy/B2B/Route.py) once its text was read: customize, getNHAddr, getCopy.
use b2bua.Prelude.{
  ℕ, ◌+◌, String, Bool, true, false, Option, none, some, List, [], ◌∷◌, ◌++◌, ltb, not,
  if◌then◌else◌,
}
use Prim.Native.String.{◌++◌ as append}
use b2bua.Prelude.Text.{drop_prefix}
use b2bua.Sip.Message.{Header}
use b2bua.B2b.Types.{Addr, CrtSet, flag, time, Route, Attempt, ok, err, type_error, index_error}

-- `not self.crt_set`, negated: a credit time of None or 0 is false.
abbrev pub is_crt_set : CrtSet → Bool
is_crt_set (flag b) = b
is_crt_set (time none) = false
is_crt_set (time (some n)) = ltb 0 n

abbrev pub headers_of : Option (List Header) → List Header
headers_of none = []
headers_of (some hs) = hs

-- The limit that every route is held to.
abbrev pub cap_credit : Option ℕ → Option ℕ → Option ℕ
cap_credit none credit = credit
cap_credit (some limit) none = some limit
cap_credit (some limit) (some credit) = some (if ltb limit credit then limit else credit)

unfoldable pub customize :
    ℕ → Option String → Option String → Option ℕ → List Header → Option ℕ → Route → Route
customize rnum default_cld default_cli default_credit_time pass_headers max_credit_time r =
    record r {
      rnum = rnum;
      cld = if r.cld_set then r.cld else default_cld;
      cli = if r.cli_set then r.cli else default_cli;
      crt_set = if is_crt_set r.crt_set then r.crt_set else time default_credit_time;
      group_timeout = elim r.gt [
        | none ↦ r.group_timeout
        | some (timeout, skip) ↦ some (timeout, rnum + skip)
      ];
      extra_headers = some (headers_of r.extra_headers ++ pass_headers);
      credit_time = cap_credit max_credit_time r.credit_time;
    }

unfoldable pub first_of_family : Bool → List Addr → Option Addr
first_of_family six [] = none
first_of_family six (a ∷ addrs) =
    let rest = first_of_family six addrs in
    if (if six then a.inet6 else not a.inet6) then some a else rest

abbrev pub nh_of : Addr → String × ℕ
nh_of a = (if a.inet6 then append (append "[" a.host) "]" else a.host, a.port)

-- `source[0].startswith('[')`.
abbrev pub is_inet6 : String → Bool
is_inet6 h = elim (drop_prefix "[" h) [ none ↦ false | some _ ↦ true ]

abbrev pub nh_among : Bool → List Addr → Attempt ((String × ℕ) × Bool)
nh_among six [] = err index_error
nh_among six (a ∷ addrs) = elim (first_of_family six (a ∷ addrs)) [
  | some b ↦ ok (nh_of b, true)
  | none ↦ ok (nh_of a, false)
]

-- getNHAddr: an address of the family of `source` if there is one.
abbrev pub get_nh_addr : Route → String × ℕ → Attempt ((String × ℕ) × Bool)
get_nh_addr r source = elim r.ainfo [
  | none ↦ err type_error
  | some addrs ↦ nh_among (is_inet6 source.0) addrs
]
