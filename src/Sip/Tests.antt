-- ===== src/Sip/Tests.antt =====
-- The theorems on URLs at concrete values.
use b2bua.Prelude.{◌≡◌, refl, true, false, none, some, [], ◌∷◌, arith, inl}
use b2bua.Sip.Text.{codes, cut, same_str, has_byte, digits, quote, prefixed}
use b2bua.Sip.Uri.{Uri, ok, parse, local_str, get_params, set_param}
use b2bua.Sip.Uri.RoundTrip.{IsOther}
use b2bua.Sip.Uri.Whole.{IsUser, IsDomain, parse-local_str}

abbrev uri0 : Uri
uri0 = record {
  scheme = codes "sip";
  username = some (codes "al ice");
  userparams = codes "day=tuesday" ∷ [];
  password = some (codes "secret");
  host = codes "atlanta.com";
  port = some 5070;
  headers = none;
  usertype = none;
  transport = some (codes "tcp");
  ttl = some 15;
  maddr = none;
  method = none;
  tag = none;
  other = codes "npdi" ∷ [];
  lr = true;
}

printed_test :
    local_str uri0
    ≡ codes "sip:al%20ice;day=tuesday:secret@atlanta.com:5070;transport=tcp;ttl=15;npdi;lr"
unfolding local_str get_params quote has_byte digits prefixed
printed_test = refl

npdi-IsOther : IsOther (codes "npdi")
unfolding set_param cut same_str
npdi-IsOther u = refl

uri0-IsDomain : IsDomain uri0
unfolding get_params has_byte digits
uri0-IsDomain = (
  (refl, refl, refl, refl),
  ((refl, refl), ((refl, refl), ((refl, refl), ((refl, refl), tt)))),
  (npdi-IsOther, tt),
)

uri0-IsUser : IsUser uri0 (codes "al ice")
unfolding has_byte
uri0-IsUser = (
  (
    (omega arith, (omega arith, (omega arith, (omega arith, (omega arith, (omega arith, tt)))))),
    refl,
  ),
  ((refl, (refl, refl)), tt),
)

parse-local_str_example : parse false (local_str uri0) ≡ ok uri0
parse-local_str_example =
    parse-local_str false uri0 (codes "al ice") (inl refl) refl refl uri0-IsUser
      (unfold has_byte in refl) uri0-IsDomain
