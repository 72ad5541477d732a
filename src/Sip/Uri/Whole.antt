-- ===== src/Sip/Uri/Whole.antt =====
-- Reading what was printed: the whole of a SipURL.
use mathlib.Core.List.{append-nil, append_assoc}
use b2bua.Prelude.{
  ℕ, suc, ◌<◌, ◌≡◌, ◌⊎◌, inl, inr, refl, ap, sym, ◌∙◌, Bool, false, Option, none, some, List, [],
  ◌∷◌, ◌++◌, ◌==◌, ◌||◌, arith, All,
}
use b2bua.Sip.Text.{
  Str, codes, same_str, cut, split, prefixed, has_byte, quote, unquote, decimal, digits, read_int,
}
use b2bua.Sip.Text.Laws.{
  Free, cut-append, cut-Free, split-prefixed, unquote-quote, read_int-decimal, append-Free,
  prefixed-Free, digits-Free, quote-Free,
}
use b2bua.Sip.Uri.{
  Uri, Parsed, ok, err, ◌>>=◌, value_error, blank, set_params, get_params, read_params, cut_last,
  with_headers, host_and_headers, read_hostport, port_in, read_port, read_user, read_rest,
  parse_sip_url, parse_scheme, parse, local_str, user_text, username_safe, headers_text, lower,
}
use b2bua.Sip.Uri.RoundTrip.{IsOther, set_params-get_params}

-- A host that is no IPv6 address: not empty, and without the marks that the parser looks for.
abbrev pub IsHost : Str → Type 0
IsHost [] = ⊥
IsHost (c ∷ s) = ((c == 91) ≡ false) × Free 58 (c ∷ s) × Free 59 (c ∷ s) × Free 63 (c ∷ s)

cut_last-Free :
    (p : Str) (ps : List Str) → Free 63 p → All (Free 63) ps → cut_last p ps ≡ (p ∷ ps, none)
unfolding cut_last
cut_last-Free p [] h k = ground (arith, cut-Free 63 p h)
cut_last-Free p (q ∷ ps) h k = ground (arith, cut_last-Free q ps k.0 k.1)

-- What a URL has beside its parameters, before they are read.
abbrev base : Str → Uri → Uri
base scheme v = record blank {
  scheme = scheme;
  username = v.username;
  userparams = v.userparams;
  password = v.password;
  host = v.host;
  port = v.port;
}

read_params-set :
    (ps : List Str) (scheme : Str) (v : Uri)
    → All (Free 63) ps
    → read_params ps (base scheme v) ≡ set_params ps (base scheme v)
read_params-set [] scheme v h = unfold b2bua.Sip.Uri.set_all in refl
read_params-set (p ∷ ps) scheme v h =
    ap (λ (r : List Str × Option Str). set_params r.0 (base scheme v) >>= λ u1. with_headers r.1 u1)
      (cut_last-Free p ps h.0 h.1)
    ∙ bind_ok (set_params (p ∷ ps) (base scheme v))
  where
    bind_ok : (a : Parsed Uri) → (a >>= λ u1. ok u1) ≡ a
    bind_ok (ok u1) = refl
    bind_ok (err e) = refl

abbrev port_text : Option ℕ → Str
port_text none = []
port_text (some n) = 58 ∷ decimal n

port_text-Free :
    (c : ℕ) (x : Option ℕ)
    → b2bua.Sip.Text.is_digit c ≡ false
    → (58 == c) ≡ false
    → Free c (port_text x)
unfolding has_byte
port_text-Free c none h k = refl
port_text-Free c (some n) h k = ground (arith, k, digits-Free c (suc n) n [] h refl)

host_and_headers-plain : (ps : List Str) (s : Str) → Free 63 s → host_and_headers ps s ≡ (s, none)
host_and_headers-plain [] s h = cut-Free 63 s h
host_and_headers-plain (p ∷ ps) s h = refl

port_of : Option ℕ → Option Str
port_of none = none
port_of (some n) = some (decimal n)

read_hostport-plain :
    (relaxed : Bool) (h : Str) (x : Option ℕ)
    → IsHost h
    → read_hostport relaxed (h ++ port_text x) ≡ ok (h, port_of x)
unfolding read_hostport port_of
read_hostport-plain relaxed [] x k = absurd k
read_hostport-plain relaxed (c ∷ s) none k =
    ground (arith, k.0, append-nil (c ∷ s), cut-Free 58 (c ∷ s) k.1)
read_hostport-plain relaxed (c ∷ s) (some n) k =
    ground (arith, k.0, cut-append 58 (c ∷ s) (decimal n) k.1)

port_in-of : (x : Option ℕ) → port_in (port_of x) ≡ ok x
unfolding port_of
port_in-of none = refl
port_in-of (some n) = ground (arith, read_int-decimal n)

name_text : Uri → Str → Str
name_text v name = quote username_safe name ++ prefixed 59 v.userparams

abbrev password_text : Option Str → Str
password_text none = []
password_text (some p) = 58 ∷ p

All-0 : (P Q : Str → Type 0) (ps : List Str) → All (λ p. P p × Q p) ps → All P ps
All-0 P Q [] h = tt
All-0 P Q (p ∷ ps) h = (h.0.0, All-0 P Q ps h.1)

All-1 : (P Q : Str → Type 0) (ps : List Str) → All (λ p. P p × Q p) ps → All Q ps
All-1 P Q [] h = tt
All-1 P Q (p ∷ ps) h = (h.0.1, All-1 P Q ps h.1)

-- What a user part consists of: bytes, and no marks that would end it.
abbrev pub IsUser : Uri → Str → Type 0
IsUser v name =
    (All (λ c. c < 256) name × Free 59 name)
    × All (λ p. Free 58 p × (Free 59 p × Free 64 p)) v.userparams

name_text-Free :
    (c : ℕ) (v : Uri) (name : Str)
    → (b2bua.Sip.Text.is_digit c || b2bua.Sip.Text.is_alpha c) ≡ false
    → (37 == c) ≡ false
    → (59 == c) ≡ false
    → b2bua.Sip.Text.is_kept username_safe c ≡ false
    → All (λ c. c < 256) name
    → All (Free c) v.userparams
    → Free c (name_text v name)
unfolding name_text
name_text-Free c v name plain percent mark escaped small params =
    append-Free c (quote username_safe name) (prefixed 59 v.userparams)
      (quote-Free c username_safe name plain percent small (inl escaped))
      (prefixed-Free c 59 v.userparams mark params)

read_user-name :
    (v u : Uri) (name : Str)
    → IsUser v name
    → read_user (name_text v name ++ password_text v.password) u
      ≡ record u { password = v.password; userparams = v.userparams; username = some name }
unfolding read_user has_byte
read_user-name v u name h =
    from_cut (cut 58 (name_text v name ++ password_text v.password)) (pieces v.password)
  where
    free : Free 58 (name_text v name)
    free =
        name_text-Free 58 v name refl refl refl refl h.0.0
          (All-0 (Free 58) (λ p. Free 59 p × Free 64 p) v.userparams h.1)

    pieces : (x : Option Str) → cut 58 (name_text v name ++ password_text x) ≡ (name_text v name, x)
    pieces none = ap (cut 58) (append-nil (name_text v name)) ∙ cut-Free 58 (name_text v name) free
    pieces (some p) = cut-append 58 (name_text v name) p free

    safe59 : Free 59 (quote username_safe name)
    safe59 = quote-Free 59 username_safe name refl refl h.0.0 (inr h.0.1)

    parts : split 59 (name_text v name) ≡ (quote username_safe name, v.userparams)
    parts =
        unfold name_text in
        split-prefixed 59 (quote username_safe name) v.userparams safe59 (
          All-0 (Free 59) (Free 64) v.userparams
            (All-1 (Free 58) (λ p. Free 59 p × Free 64 p) v.userparams h.1))

    from_cut :
        (r : Str × Option Str)
        → r ≡ (name_text v name, v.password)
        → (let user = split 59 r.0 in
            record u { password = r.1; userparams = user.1; username = some (unquote user.0) })
          ≡ record u { password = v.password; userparams = v.userparams; username = some name }
    from_cut r e = ground (arith, e, parts, unquote-quote username_safe name refl h.0.0)

-- What follows the user part.
dom_text : Uri → Str
dom_text v = (v.host ++ port_text v.port) ++ prefixed 59 (get_params v)

-- What the host and the parameters must not hold, and the parameters that the parser keeps as they
-- are.
abbrev pub IsDomain : Uri → Type 0
IsDomain v = IsHost v.host × All (λ p. Free 59 p × Free 63 p) (get_params v) × All IsOther v.other

hostport-Free :
    (c : ℕ) (v : Uri)
    → Free c v.host
    → b2bua.Sip.Text.is_digit c ≡ false
    → (58 == c) ≡ false
    → Free c (v.host ++ port_text v.port)
hostport-Free c v h plain mark =
    append-Free c v.host (port_text v.port) h (port_text-Free c v.port plain mark)

IsHost-Free : (h : Str) → IsHost h → Free 59 h × Free 63 h
IsHost-Free [] k = absurd k
IsHost-Free (c ∷ s) k = (k.2, k.3)

read_rest-dom :
    (relaxed : Bool) (scheme user : Str) (v : Uri)
    → IsDomain v
    → v.headers ≡ none
    → read_user user (record blank { scheme = scheme }) ≡ record blank {
      scheme = scheme;
      password = v.password;
      userparams = v.userparams;
      username = v.username;
    }
    → read_rest relaxed (some user) (dom_text v) (record blank { scheme = scheme })
      ≡ ok (record v { scheme = scheme })
unfolding dom_text
read_rest-dom relaxed scheme user v h no_headers as_user = from_split (split 59 (dom_text v)) parts
  where
    ps : List Str
    ps = get_params v

    hp : Str
    hp = v.host ++ port_text v.port

    marks : Free 59 v.host × Free 63 v.host
    marks = IsHost-Free v.host h.0

    parts : split 59 (dom_text v) ≡ (hp, ps)
    parts =
        split-prefixed 59 hp ps (hostport-Free 59 v marks.0 refl refl)
          (All-0 (Free 59) (Free 63) ps h.1)

    last : read_params ps (base scheme v) ≡ ok (record v { scheme = scheme })
    last =
        read_params-set ps scheme v (All-1 (Free 59) (Free 63) ps h.1)
        ∙ (set_params-get_params v (base scheme v) h.2
            ∙ ap (λ x. ok (record v { scheme = scheme; headers = x })) (sym no_headers))

    from_split :
        (r : Str × List Str)
        → r ≡ (hp, ps)
        → (let q = host_and_headers r.1 r.0 in
            with_headers q.1 (record blank { scheme = scheme }) >>= λ u1.
            (read_hostport relaxed q.0 >>= λ hq.
            (port_in hq.1 >>= λ port.
            read_params r.1 (record (read_user user u1) { host = hq.0; port = port }))))
          ≡ ok (record v { scheme = scheme })
    from_split r e = ground (
      arith,
      e,
      host_and_headers-plain ps hp (hostport-Free 63 v marks.1 refl refl),
      read_hostport-plain relaxed v.host v.port h.0,
      port_in-of v.port,
      as_user,
      last,
    )

abbrev after_scheme : Uri → Str
after_scheme v =
    user_text v
    ++ (v.host
        ++ ((elim v.port [ none ↦ [] | some n ↦ 58 ∷ decimal n ])
            ++ (prefixed 59 (get_params v) ++ headers_text v.headers)))

port_same : (x : Option ℕ) → (elim x [ none ↦ [] | some n ↦ 58 ∷ decimal n ]) ≡ port_text x
port_same none = refl
port_same (some n) = refl

password_same : (x : Option Str) → (elim x [ none ↦ [] | some p ↦ 58 ∷ p ]) ≡ password_text x
password_same none = refl
password_same (some p) = refl

dom_shape :
    (v : Uri)
    → v.headers ≡ none
    → v.host
        ++ ((elim v.port [ none ↦ [] | some n ↦ 58 ∷ decimal n ])
            ++ (prefixed 59 (get_params v) ++ headers_text v.headers))
      ≡ dom_text v
unfolding dom_text b2bua.Sip.Uri.header_texts
dom_shape v h =
    ap (λ t. v.host ++ (t ++ (prefixed 59 (get_params v) ++ headers_text v.headers)))
      (port_same v.port)
    ∙ (ap (λ x. v.host ++ (port_text v.port ++ (prefixed 59 (get_params v) ++ headers_text x))) h
        ∙ (ap (λ t. v.host ++ (port_text v.port ++ t)) (append-nil (prefixed 59 (get_params v)))
            ∙ sym (append_assoc v.host (port_text v.port) (prefixed 59 (get_params v)))))

user_shape :
    (v : Uri) (name : Str)
    → v.username ≡ some name
    → user_text v ≡ (name_text v name ++ password_text v.password) ++ codes "@"
unfolding name_text
user_shape v name h =
    let q = quote username_safe name in
    let ps = prefixed 59 v.userparams in
    ap
      (λ (x : Option Str). elim x [
        | none ↦ []
        | some n ↦
            quote username_safe n
            ++ (ps ++ ((elim v.password [ none ↦ [] | some p ↦ 58 ∷ p ]) ++ codes "@"))
      ])
      h
    ∙ (ap (λ t. q ++ (ps ++ (t ++ codes "@"))) (password_same v.password)
        ∙ (sym (append_assoc q ps (password_text v.password ++ codes "@"))
            ∙ sym (append_assoc (q ++ ps) (password_text v.password) (codes "@"))))

whole_shape :
    (v : Uri) (name : Str)
    → v.username ≡ some name
    → v.headers ≡ none
    → after_scheme v ≡ (name_text v name ++ password_text v.password) ++ 64 ∷ dom_text v
whole_shape v name h k =
    let a = name_text v name ++ password_text v.password in
    ap (λ t. user_text v ++ t) (dom_shape v k)
    ∙ (ap (λ t. t ++ dom_text v) (user_shape v name h) ∙ append_assoc a (codes "@") (dom_text v))

parse_scheme-after :
    (relaxed : Bool) (scheme : Str) (v : Uri) (name : Str)
    → v.username ≡ some name
    → v.headers ≡ none
    → IsUser v name
    → Free 64 (password_text v.password)
    → IsDomain v
    → parse_sip_url relaxed (after_scheme v) (record blank { scheme = scheme })
      ≡ ok (record v { scheme = scheme })
unfolding parse_sip_url
parse_scheme-after relaxed scheme v name h k user password dom =
    from_cut (cut 64 (after_scheme v))
      (ap (cut 64) (whole_shape v name h k) ∙ cut-append 64 a (dom_text v) free)
  where
    a : Str
    a = name_text v name ++ password_text v.password

    at64 : All (Free 64) v.userparams
    at64 =
        All-1 (Free 59) (Free 64) v.userparams
          (All-1 (Free 58) (λ p. Free 59 p × Free 64 p) v.userparams user.1)

    free : Free 64 a
    free =
        append-Free 64 (name_text v name) (password_text v.password)
          (unfold has_byte in name_text-Free 64 v name refl refl refl refl user.0.0 at64) password

    as_user : read_user a (record blank { scheme = scheme }) ≡ record blank {
      scheme = scheme;
      password = v.password;
      userparams = v.userparams;
      username = v.username;
    }
    as_user =
        read_user-name v (record blank { scheme = scheme }) name user
        ∙ ap
            (λ x. record blank {
              scheme = scheme;
              password = v.password;
              userparams = v.userparams;
              username = x;
            })
            (sym h)

    from_cut :
        (r : Str × Option Str)
        → r ≡ (a, some (dom_text v))
        → (elim r.1 [
          | none ↦ read_rest relaxed none (after_scheme v) (record blank { scheme = scheme })
          | some dom ↦ read_rest relaxed (some r.0) dom (record blank { scheme = scheme })
        ])
          ≡ ok (record v { scheme = scheme })
    from_cut r e =
        ap
          (λ (r : Str × Option Str). elim r.1 [
            | none ↦ read_rest relaxed none (after_scheme v) (record blank { scheme = scheme })
            | some dom ↦ read_rest relaxed (some r.0) dom (record blank { scheme = scheme })
          ])
          e
        ∙ read_rest-dom relaxed scheme a v dom k as_user

-- The schemes that the parser takes.
abbrev pub IsScheme : Str → Type 0
IsScheme s = (s ≡ codes "sip") ⊎ (s ≡ codes "sips")

-- Reading a printed URL gives back the URL, in the relaxed way or not: if its scheme is sip or sips;
-- if it has a user name without a `;`, user parameters without `;`, `:` or `@`, and a password
-- without `@`, if any; if its host is no IPv6 address and has no mark of the syntax; if no printed
-- parameter has a `;` or `?`, and none of the others is one that the parser has a field for; and if
-- it has no headers.
pub parse-local_str :
    (relaxed : Bool) (v : Uri) (name : Str)
    → IsScheme v.scheme
    → v.username ≡ some name
    → v.headers ≡ none
    → IsUser v name
    → Free 64 (password_text v.password)
    → IsDomain v
    → parse relaxed (local_str v) ≡ ok v
unfolding parse local_str cut same_str
parse-local_str relaxed v name scheme h k user password dom = of_scheme scheme
  where
    rest : Str
    rest = after_scheme v

    of_scheme : IsScheme v.scheme → parse relaxed (local_str v) ≡ ok v
    of_scheme (inl e) =
        ap (λ s. parse relaxed (s ++ 58 ∷ rest)) e
        ∙ (parse_scheme-after relaxed (codes "sip") v name h k user password dom
            ∙ ap (λ s. ok (record v { scheme = s })) (sym e))
    of_scheme (inr e) =
        ap (λ s. parse relaxed (s ++ 58 ∷ rest)) e
        ∙ (parse_scheme-after relaxed (codes "sips") v name h k user password dom
            ∙ ap (λ s. ok (record v { scheme = s })) (sym e))
