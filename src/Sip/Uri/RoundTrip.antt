-- ===== src/Sip/Uri/RoundTrip.antt =====
-- Reading what was printed: the parameters of a SipURL.
use mathlib.Core.List.{append-nil, append_assoc}
use b2bua.Prelude.{
  ℕ, ◌≡◌, refl, ap, sym, ◌∙◌, Bool, true, false, Option, none, some, List, [], ◌∷◌, ◌++◌, arith,
  All, if◌then◌else◌,
}
use b2bua.Sip.Text.{Str, codes, same_str, cut, has_byte, decimal, read_int}
use b2bua.Sip.Text.Laws.{Free, cut-append, read_int-decimal}
use b2bua.Sip.Uri.{
  Uri, ok, err, value_error, ◌>>=◌, set_named, set_param, set_all, set_params, opt_param, ttl_text,
  get_params,
}

-- A parameter of `other` is none that the parser takes for one of its own.
abbrev pub IsOther : Str → Type 0
IsOther p = (u : Uri) → set_param p u ≡ ok (record u { other = u.other ++ p ∷ [] })

set_param-named :
    (name v : Str) (u : Uri)
    → Free 61 name
    → set_param (name ++ 61 ∷ v) u ≡ set_named (name ++ 61 ∷ v) name v u
unfolding set_param
set_param-named name v u h = ground (arith, cut-append 61 name v h)

set_all-cons :
    (p : Str) (ps : List Str) (u u1 : Uri)
    → set_param p u ≡ ok u1
    → set_all (p ∷ ps) u ≡ set_all ps u1
unfolding set_all
set_all-cons p ps u u1 h = ground (arith, h)

usertype_step :
    (v : Option Str) (ps : List Str) (u : Uri)
    → u.usertype ≡ none
    → set_all (opt_param (codes "user") v ++ ps) u ≡ set_all ps (record u { usertype = v })
unfolding same_str has_byte
usertype_step none ps u h = ap (λ x. set_all ps (record u { usertype = x })) h
usertype_step (some v) ps u h =
    set_all-cons (codes "user" ++ 61 ∷ v) ps u (record u { usertype = some v })
      (set_param-named (codes "user") v u refl)

transport_step :
    (v : Option Str) (ps : List Str) (u : Uri)
    → u.transport ≡ none
    → set_all (opt_param (codes "transport") v ++ ps) u ≡ set_all ps (record u { transport = v })
unfolding same_str has_byte
transport_step none ps u h = ap (λ x. set_all ps (record u { transport = x })) h
transport_step (some v) ps u h =
    set_all-cons (codes "transport" ++ 61 ∷ v) ps u (record u { transport = some v })
      (set_param-named (codes "transport") v u refl)

maddr_step :
    (v : Option Str) (ps : List Str) (u : Uri)
    → u.maddr ≡ none
    → set_all (opt_param (codes "maddr") v ++ ps) u ≡ set_all ps (record u { maddr = v })
unfolding same_str has_byte
maddr_step none ps u h = ap (λ x. set_all ps (record u { maddr = x })) h
maddr_step (some v) ps u h =
    set_all-cons (codes "maddr" ++ 61 ∷ v) ps u (record u { maddr = some v })
      (set_param-named (codes "maddr") v u refl)

method_step :
    (v : Option Str) (ps : List Str) (u : Uri)
    → u.method ≡ none
    → set_all (opt_param (codes "method") v ++ ps) u ≡ set_all ps (record u { method = v })
unfolding same_str has_byte
method_step none ps u h = ap (λ x. set_all ps (record u { method = x })) h
method_step (some v) ps u h =
    set_all-cons (codes "method" ++ 61 ∷ v) ps u (record u { method = some v })
      (set_param-named (codes "method") v u refl)

tag_step :
    (v : Option Str) (ps : List Str) (u : Uri)
    → u.tag ≡ none
    → set_all (opt_param (codes "tag") v ++ ps) u ≡ set_all ps (record u { tag = v })
unfolding same_str has_byte
tag_step none ps u h = ap (λ x. set_all ps (record u { tag = x })) h
tag_step (some v) ps u h =
    set_all-cons (codes "tag" ++ 61 ∷ v) ps u (record u { tag = some v })
      (set_param-named (codes "tag") v u refl)

ttl_step :
    (v : Option ℕ) (ps : List Str) (u : Uri)
    → u.ttl ≡ none
    → set_all (opt_param (codes "ttl") (ttl_text v) ++ ps) u ≡ set_all ps (record u { ttl = v })
unfolding same_str has_byte
ttl_step none ps u h = ap (λ x. set_all ps (record u { ttl = x })) h
ttl_step (some n) ps u h =
    set_all-cons (codes "ttl" ++ 61 ∷ decimal n) ps u (record u { ttl = some n })
      (set_param-named (codes "ttl") (decimal n) u refl
        ∙ number (read_int (decimal n)) (read_int-decimal n))
  where
    number :
        (x : Option ℕ)
        → x ≡ some n
        → ((elim x [ none ↦ err value_error | some n ↦ ok n ]) >>= λ n.
            ok (record u { ttl = some n }))
          ≡ ok (record u { ttl = some n })
    number x e =
        ap
          (λ (x : Option ℕ). (elim x [ none ↦ err value_error | some n ↦ ok n ]) >>= λ n.
            ok (record u { ttl = some n }))
          e

other_step :
    (ps qs : List Str) (u : Uri)
    → All IsOther ps
    → set_all (ps ++ qs) u ≡ set_all qs (record u { other = u.other ++ ps })
other_step [] qs u h = ap (λ l. set_all qs (record u { other = l })) (sym (append-nil u.other))
other_step (p ∷ ps) qs u h =
    set_all-cons p (ps ++ qs) u (record u { other = u.other ++ p ∷ [] }) (h.0 u)
    ∙ (other_step ps qs (record u { other = u.other ++ p ∷ [] }) h.1
        ∙ ap (λ l. set_all qs (record u { other = l })) (append_assoc u.other (p ∷ []) ps))

lr_step :
    (b : Bool) (u : Uri)
    → u.lr ≡ false
    → set_all (if b then codes "lr" ∷ [] else []) u ≡ ok (record u { lr = b })
unfolding set_all set_param same_str cut
lr_step true u h = refl
lr_step false u h = ap (λ x. ok (record u { lr = x })) h

-- Reading the printed parameters of a URL gives back every one of them, whatever was there before,
-- if none of those that it keeps as they are is one that the parser has a field for.
pub set_params-get_params :
    (v u : Uri)
    → All IsOther v.other
    → set_params (get_params v) u
      ≡ ok (record u {
        usertype = v.usertype;
        transport = v.transport;
        ttl = v.ttl;
        maddr = v.maddr;
        method = v.method;
        tag = v.tag;
        other = v.other;
        lr = v.lr;
      })
unfolding get_params
set_params-get_params v u h =
    let u0 = record u {
      usertype = none;
      transport = none;
      ttl = none;
      maddr = none;
      method = none;
      tag = none;
      other = [];
      lr = false;
    } in
    let u1 = record u0 { usertype = v.usertype } in
    let u2 = record u1 { transport = v.transport } in
    let u3 = record u2 { ttl = v.ttl } in
    let u4 = record u3 { maddr = v.maddr } in
    let u5 = record u4 { method = v.method } in
    let u6 = record u5 { tag = v.tag } in
    usertype_step v.usertype _ u0 refl
    ∙ (transport_step v.transport _ u1 refl
        ∙ (ttl_step v.ttl _ u2 refl
            ∙ (maddr_step v.maddr _ u3 refl
                ∙ (method_step v.method _ u4 refl
                    ∙ (tag_step v.tag _ u5 refl
                        ∙ (other_step v.other _ u6 h
                            ∙ lr_step v.lr (record u6 { other = v.other }) refl))))))
