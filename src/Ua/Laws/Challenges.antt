-- ===== src/Ua/Laws/Challenges.antt =====
-- Digest challenges (sippy/UA.py, processChallenge and recvResponse).
use b2bua.Prelude.{
  ℕ, ◌≡◌, refl, sym, ap, Bool, true, false, Option, none, some, List, [], ◌∷◌, ◌++◌, String, ◌&&◌,
  ◌==◌, not, arith, All, if_elim, eq_iff, Option-cases, inl, inr,
}
use mathlib.Core.Path.{subst}
use b2bua.Prelude.Assoc.{
  lookup, Assoc, insert, remove, lookup-remove, lookup-insert, lookup-remove-insert, nat_key,
}
use b2bua.Sip.Message.{
  invite, authorization, Challenge, Header, Request, Response, count_hfs, header_name,
}
use b2bua.Sip.Auth.{supported_algorithm}
use b2bua.Ua.Types.{start, to_ua}
use b2bua.Ua.State.{Ua}
use b2bua.Ua.Requests.{
  has_credentials, is_barred, pick_challenge, process_challenge, retry_invite, gen_request,
  start_uac,
}
use b2bua.Ua.Incoming.{try_auth, own_invite}

-- The challenge may be answered and can be.
abbrev pub is_usable : Option (List String) → Challenge → Bool
is_usable enalgs c = not (is_barred enalgs c.algorithm) && (supported_algorithm c).0

abbrev pub IsPicked :
    Option (List String) → List Challenge → Option (Challenge × Option String) → Type 0
IsPicked enalgs cs none = All (λ c. is_usable enalgs c ≡ false) cs
IsPicked enalgs cs (some (c, q)) =
    (is_usable enalgs c ≡ true)
    × (q ≡ (supported_algorithm c).1)
    × ((before : List Challenge) × (after : List Challenge) × (cs ≡ before ++ c ∷ after)
        × All (λ b. is_usable enalgs b ≡ false) before)

IsPicked-skip :
    (enalgs : Option (List String)) (c : Challenge) (cs : List Challenge)
    (o : Option (Challenge × Option String))
    → is_usable enalgs c ≡ false
    → IsPicked enalgs cs o
    → IsPicked enalgs (c ∷ cs) o
IsPicked-skip enalgs c cs none bad h = (bad, h)
IsPicked-skip enalgs c cs (some (d, q)) bad (ok, same, h) =
    (ok, same, (c ∷ h.0, h.1, ap (λ l. c ∷ l) h.2, (bad, h.3)))

-- The challenge that is answered is the first one whose algorithm the configuration allows and the
-- program supports, with the qop for it; none is answered only where there is none such.
pub pick_challenge-IsPicked :
    (enalgs : Option (List String)) (cs : List Challenge)
    → IsPicked enalgs cs (pick_challenge enalgs cs)
unfolding pick_challenge
pick_challenge-IsPicked enalgs [] = tt
pick_challenge-IsPicked enalgs (c ∷ cs) =
    let rest = pick_challenge-IsPicked enalgs cs in
    let skip : is_usable enalgs c ≡ false → IsPicked enalgs (c ∷ cs) (pick_challenge enalgs cs) =
      λ bad. IsPicked-skip enalgs c cs (pick_challenge enalgs cs) bad rest in
    if_elim (IsPicked enalgs (c ∷ cs)) (is_barred enalgs c.algorithm)
      (λ barred. skip (ground (arith, barred)))
      (λ allowed.
        if_elim (IsPicked enalgs (c ∷ cs)) (supported_algorithm c).0
          (λ good. (ground (arith, allowed, good), refl, ([], cs, refl, tt)))
          (λ bad. skip (ground (arith, bad))))

-- Every challenge of the list is of this kind, as those of one header field are.
abbrev pub AllKind : Bool → List Challenge → Type 0
AllKind proxy = All (λ c. c.proxy ≡ proxy)

-- The header that answers a challenge of a kind.
abbrev pub answer_name : Bool → String
answer_name true = "proxy-authorization"
answer_name false = "authorization"

pick_challenge-AllKind :
    (proxy : Bool) (enalgs : Option (List String)) (cs : List Challenge) (c : Challenge)
    (q : Option String)
    → AllKind proxy cs
    → pick_challenge enalgs cs ≡ some (c, q)
    → c.proxy ≡ proxy
unfolding pick_challenge
pick_challenge-AllKind proxy enalgs [] c q h e = ground arith
pick_challenge-AllKind proxy enalgs (d ∷ ds) c q h e =
    ground (arith, pick_challenge-AllKind proxy enalgs ds c q h.1)

count_hfs-first :
    (n : String) (h : Header) (hs : List Header)
    → header_name h ≡ n
    → (count_hfs n (h ∷ hs) == 0) ≡ false
unfolding count_hfs
count_hfs-first n h hs same = ground (arith, eq_iff (header_name h) n, same)

header_name-answer :
    (c : Challenge) (q : Option String) (proxy : Bool)
    → c.proxy ≡ proxy
    → header_name (authorization c q) ≡ answer_name proxy
unfolding header_name
header_name-answer c q true h = ground arith
header_name-answer c q false h = ground arith

module _ {B : Type 0} where
  retry_invite-reqs :
      (cseq : ℕ) (c : Challenge) (q : Option String) (eh : List Header) (s : Ua B) (req : Request B)
      → lookup s.dialog.lcseq (retry_invite cseq (c, q) eh s).dialog.reqs ≡ some req
      → req.headers ≡ authorization c q ∷ (s.config.extra_headers ++ eh)
  unfolding retry_invite gen_request start_uac
  retry_invite-reqs cseq c q eh s req h =
      ap (λ (r : Request B). r.headers)
        (lookup-remove-insert s.dialog.lcseq cseq _ req s.dialog.reqs h)

  -- The request that answers the challenge `c` to the request numbered `cseq` was started: it is the
  -- newest call, an INVITE with the next CSeq and the answer as its first header; the UA waits for it
  -- and keeps it in the place of the challenged one.
  pub record IsRetried (cseq : ℕ) (c : Challenge) (q : Option String) (eh : List Header)
      (s t : Ua B) (req : Request B) : Type 0 where
    pub sent : t.calls ≡ start req to_ua eh ∷ s.calls
    pub is_invite : req.method ≡ invite
    pub number : req.cseq ≡ s.dialog.lcseq
    pub headers : req.headers ≡ authorization c q ∷ (s.config.extra_headers ++ eh)
    pub waits : t.tr ≡ some s.dialog.lcseq
    pub kept : lookup s.dialog.lcseq t.dialog.reqs ≡ some req
    pub gone : lookup cseq t.dialog.reqs ≡ none

  lookup-replaced :
      (old new : ℕ) (req : Request B) (d : Assoc ℕ (Request B))
      → (old == new) ≡ false
      → (lookup new (remove old (insert new req d)) ≡ some req)
        × (lookup old (remove old (insert new req d)) ≡ none)
  lookup-replaced old new req d h = ground (
    arith,
    h,
    lookup-remove old new (insert new req d),
    lookup-remove old old (insert new req d),
    lookup-insert new new req d,
    nat_key.same_iff old old,
    nat_key.same_iff new new,
  )

  retry_invite-IsRetried :
      (cseq : ℕ) (c : Challenge) (q : Option String) (eh : List Header) (s : Ua B)
      → (cseq == s.dialog.lcseq) ≡ false
      → (req : Request B) × IsRetried cseq c q eh s (retry_invite cseq (c, q) eh s) req
  unfolding retry_invite gen_request start_uac
  retry_invite-IsRetried cseq c q eh s h =
      let again = (gen_request invite s.media.lsdp (authorization c q ∷ []) eh none s).0 in
      let retried = lookup-replaced cseq s.dialog.lcseq again s.dialog.reqs h in
      (
        again,
        record {
          sent = refl;
          is_invite = refl;
          number = refl;
          headers = refl;
          waits = refl;
          kept = retried.0;
          gone = retried.1;
        },
      )

  -- When a challenged INVITE is answered at all, the UA had credentials, and the INVITE answered no
  -- challenge of the kind before. What goes out is the INVITE under the next CSeq, with the answer to
  -- the first usable challenge before the other headers; the UA waits for this request, and keeps it
  -- for the next response, and not the challenged one any more (whose CSeq is an earlier one).
  pub process_challenge-retry :
      (cseq : ℕ) (req : Request B) (cs : List Challenge) (name : String) (eh : List Header)
      (s : Ua B)
      → (cseq == s.dialog.lcseq) ≡ false
      → (process_challenge cseq req cs name eh s).0 ≡ true
      → let t = (process_challenge cseq req cs name eh s).1 in
        (has_credentials s ≡ true)
        × ((count_hfs name req.headers == 0) ≡ true)
        × ((c : Challenge) × (q : Option String) × (again : Request B) × IsPicked
              s.config.auth_enalgs cs
              (some (c, q))
            × IsRetried cseq c q eh s t again)
  unfolding process_challenge
  process_challenge-retry cseq req cs name eh s older h =
      elim (Option-cases (pick_challenge s.config.auth_enalgs cs)) [
        | inl none_fits ↦ ground (arith, h, none_fits)
        | inr ((c, q), picked) ↦
            let here : IsPicked s.config.auth_enalgs cs (some (c, q)) =
              subst (IsPicked s.config.auth_enalgs cs) picked
                (pick_challenge-IsPicked s.config.auth_enalgs cs) in
            let r = retry_invite-IsRetried cseq c q eh s older in
            let run : (has_credentials s ≡ true)
                × ((count_hfs name req.headers == 0) ≡ true)
                × ((process_challenge cseq req cs name eh s).1 ≡ retry_invite cseq (c, q) eh s) =
              ground (arith, h, picked) in
            (
              run.0,
              run.1,
              (c, q, r.0, here, subst (λ t. IsRetried cseq c q eh s t r.0) (sym run.2) r.1),
            )
      ]

  process_challenge-once :
      (cseq : ℕ) (req1 req2 : Request B) (cs1 cs2 : List Challenge) (proxy : Bool)
      (eh1 eh2 : List Header) (s : Ua B)
      → AllKind proxy cs1
      → let r = process_challenge cseq req1 cs1 (answer_name proxy) eh1 s in
        r.0 ≡ true
        → lookup s.dialog.lcseq r.1.dialog.reqs ≡ some req2
        → process_challenge s.dialog.lcseq req2 cs2 (answer_name proxy) eh2 r.1 ≡ (false, r.1)
  unfolding process_challenge
  process_challenge-once cseq req1 req2 cs1 cs2 proxy eh1 eh2 s kind h k =
      elim (Option-cases (pick_challenge s.config.auth_enalgs cs1)) [
        | inl none_fits ↦ ground (arith, h, none_fits)
        | inr ((c, q), picked) ↦
            let same = pick_challenge-AllKind proxy s.config.auth_enalgs cs1 c q kind picked in
            let named = header_name-answer c q proxy same in
            let sent = retry_invite-reqs cseq c q eh1 s req2 in
            let seen =
              count_hfs-first (answer_name proxy) (authorization c q)
                (s.config.extra_headers ++ eh1) named in
            ground (arith, h, k, picked, sent, seen)
      ]

  -- An INVITE that was sent again in answer to a 401 is not sent again for another 401, and likewise
  -- for 407: when such a response comes to the copy, it is passed on to the state, and the UA is as
  -- it was. The challenges of the two headers are each of their kind.
  pub try_auth-once :
      (resp1 resp2 : Response B) (eh1 eh2 : List Header) (s : Ua B)
      → AllKind false resp1.www
      → AllKind true resp1.proxy
      → resp2.code ≡ resp1.code
      → resp2.cseq ≡ s.dialog.lcseq
      → (try_auth resp1 eh1 s).0 ≡ true
      → try_auth resp2 eh2 (try_auth resp1 eh1 s).1 ≡ (false, (try_auth resp1 eh1 s).1)
  unfolding try_auth
  try_auth-once resp1 resp2 eh1 eh2 s www proxy same ours h =
      let t = (try_auth resp1 eh1 s).1 in
      elim (Option-cases (own_invite resp1 s)) [
        | inl e ↦ ground (arith, h, e)
        | inr (req1, e) ↦ elim (Option-cases (own_invite resp2 t)) [
          | inl e2 ↦ ground (arith, h, e, e2)
          | inr (req2, e2) ↦ ground (
            arith,
            h,
            e,
            e2,
            same,
            ours,
            process_challenge-once resp1.cseq req1 req2 resp1.www resp2.www false eh1 eh2 s www,
            process_challenge-once resp1.cseq req1 req2 resp1.proxy resp2.proxy true eh1 eh2 s
                proxy,
          )
        ]
      ]
