-- ===== src/Sip/Auth.antt =====
-- sippy/SipWWWAuthenticate.py, supportedAlgorithm, and sippy/SipAuthorization.py,
-- IsDigestAlgSupported.
use b2bua.Prelude.{
  String, Bool, true, false, Option, none, some, List, [], ◌∷◌, not, ◌||◌, str_eq, if◌then◌else◌,
}
use b2bua.Sip.Message.{Challenge}

-- `x in names`.
unfoldable pub among : String → List String → Bool
among x [] = false
among x (n ∷ ns) = str_eq n x || among x ns

-- `s.endswith(tail)`.
unfoldable pub ends_with : String → String → Bool
ends_with tail String.[] = str_eq tail ""
ends_with tail (String.◌∷◌ c s) =
    let rest = ends_with tail s in str_eq (String.◌∷◌ c s) tail || rest

-- The keys of `_HASH_FUNC`, `None` aside.
abbrev pub hash_names : List String
hash_names =
    "MD5" ∷ "MD5-sess" ∷ "SHA-256" ∷ "SHA-256-sess" ∷ "SHA-512-256" ∷ "SHA-512-256-sess" ∷ []

unfoldable pub is_digest_alg_supported : Option String → Bool
unfolding among
is_digest_alg_supported none = true
is_digest_alg_supported (some a) = among a hash_names

-- `[x for x in qop if x in ('auth', 'auth-int')]`, its first element.
unfoldable pub first_qop : List String → Option String
unfolding among
first_qop [] = none
first_qop (q ∷ qs) =
    let rest = first_qop qs in if among q ("auth" ∷ "auth-int" ∷ []) then some q else rest

needs_qop : Option String → Bool
needs_qop none = false
needs_qop (some a) = ends_with "-sess" a || not (str_eq a "MD5")

pick_qop : Option String → Option String → Bool × Option String
pick_qop none a = (false, none)
pick_qop (some q) a = (is_digest_alg_supported a, some q)

-- Whether the challenge can be answered, and the `qop` to answer it with.
unfoldable pub supported_algorithm : Challenge → Bool × Option String
unfolding needs_qop pick_qop first_qop is_digest_alg_supported
supported_algorithm c = elim c.qop [
  | some qs ↦ pick_qop (first_qop qs) c.algorithm
  | none ↦
      if needs_qop c.algorithm then (false, none) else (is_digest_alg_supported c.algorithm, none)
]
