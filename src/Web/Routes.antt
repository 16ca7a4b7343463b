-- ===== src/Web/Routes.antt =====
-- Which page a request gets.
use mptsd.Base.{
  ◌≡◌, ◌≢◌, ◌⊎◌, inl, inr, refl, ap, ◌∙◌, true, false, List, [], ◌∷◌, ◌++◌, none, some, CString,
  codes, has_prefix, arith, length, ltb, ◌==◌, All, Bool-cases, ==_iff,
}
use mptsd.Url.{span}
use mptsd.Input.{Input}
use mptsd.Web.{
  Reply, not_found_404, not_implemented_501, shut_down, cmd_index, cmd_reconnect, is_no_space,
  group_before, match_get, drop_slash, path_of, answer, skip_headers, process_web_request,
}

abbrev pub NoSpace : CString → Type 0
NoSpace p = All (λ c. c ≢ 32) p

-- The target of a request: "GET /", the target and " HTTP/1", whatever follows.
abbrev pub request : CString → CString → CString
request target version = codes "GET /" ++ (target ++ (codes " HTTP/1" ++ version))

span_target : (p t : CString) → NoSpace p → span is_no_space (p ++ 32 ∷ t) ≡ (p, 32 ∷ t)
unfolding span
span_target [] t h = refl
span_target (c ∷ p) t (ne, h) =
    let e : (c == 32) ≡ false = ground arith in rw (e, span_target p t h) refl

match_get-request : (p v : CString) → NoSpace p → match_get (request p v) ≡ some p
unfolding match_get has_prefix
match_get-request p v h = ap group_before (span_target p (codes "HTTP/1" ++ v) h)

has_prefix-append : (s t : CString) → has_prefix (s ++ t) s ≡ true
unfolding has_prefix
has_prefix-append [] t = refl
has_prefix-append (c ∷ s) t = ground (arith, has_prefix-append s t)

index_page :
    (inputs : List Input) (p : CString)
    → (p ≡ []) ⊎ (p ≡ codes "/")
    → answer inputs (drop_slash p) ≡ cmd_index
unfolding answer drop_slash
index_page inputs p (inl empty) = rw empty refl
index_page inputs p (inr slash) = rw slash refl

reconnect_page :
    (inputs : List Input) (more : CString)
    → answer inputs (drop_slash (codes "reconnect" ++ more)) ≡ cmd_reconnect inputs
unfolding answer drop_slash has_prefix
reconnect_page inputs [] = refl
reconnect_page inputs (m ∷ more) = ground arith

has_prefix-drop_slash : (p t : CString) → has_prefix (drop_slash p) t ≡ true → has_prefix p t ≡ true
unfolding drop_slash has_prefix
has_prefix-drop_slash p [] h = refl
has_prefix-drop_slash [] (y ∷ ys) h = h
has_prefix-drop_slash (c ∷ []) (y ∷ ys) h = elim (Bool-cases (c == b'/')) [
  | inl slash ↦ absurd (ground arith)
  | inr other ↦ ground arith
]
has_prefix-drop_slash (c ∷ d ∷ p) (y ∷ ys) h = ground (arith, has_prefix-drop_slash (d ∷ p) ys)

drop_slash-nonempty : (p : CString) → p ≢ [] → p ≢ codes "/" → (length (drop_slash p) == 0) ≡ false
unfolding drop_slash
drop_slash-nonempty [] some_char no_slash = absurd (some_char refl)
drop_slash-nonempty (c ∷ []) some_char no_slash = elim (Bool-cases (c == b'/')) [
  | inl slash ↦ absurd (no_slash (ap (λ x. x ∷ []) ((==_iff c b'/').0 slash)))
  | inr other ↦ rw other refl
]
drop_slash-nonempty (c ∷ d ∷ p) some_char no_slash = ground arith

missing_page :
    (inputs : List Input) (p : CString)
    → p ≢ []
    → p ≢ codes "/"
    → has_prefix p (codes "reconnect") ≡ false
    → answer inputs (drop_slash p) ≡ not_found_404 ∷ []
unfolding answer
missing_page inputs p some_char no_slash other =
    ground
      (arith, drop_slash-nonempty p some_char no_slash, has_prefix-drop_slash p (codes "reconnect"))

module _ (chomp : CString → CString) (inputs : List Input) (headers : List CString) where
  abbrev served : CString → List Reply × List CString
  served line = process_web_request chomp true inputs (line ∷ headers)

  served-request :
      (p v : CString)
      → NoSpace p
      → length (chomp p) ≡ length p
      → served (request p v)
        ≡ (answer inputs (drop_slash p) ++ shut_down ∷ [], skip_headers headers)
  unfolding process_web_request path_of
  served-request p v h same =
      let e : ltb (length (chomp p)) (length p) ≡ false = ground arith in
      rw (match_get-request p v h, e, process_web_request) refl

  -- The replies to a target.
  pub record Routed (p v : CString) : Type 0 where
    pub index : (p ≡ []) ⊎ (p ≡ codes "/") → (served (request p v)).0 ≡ cmd_index ++ shut_down ∷ []
    pub reconnect :
        (more : CString)
        → p ≡ codes "reconnect" ++ more
        → (served (request p v)).0 ≡ cmd_reconnect inputs ++ shut_down ∷ []
    pub missing :
        p ≢ []
        → p ≢ codes "/"
        → has_prefix p (codes "reconnect") ≡ false
        → (served (request p v)).0 ≡ not_found_404 ∷ shut_down ∷ []
    pub drained : (served (request p v)).1 ≡ skip_headers headers

  -- A GET of HTTP/1 for a target without spaces, which `chomp` does not shorten: "/" and the same with one
  -- more slash get the first page, what begins with "/reconnect" the page of that name, and every other
  -- target 404; the headers are read up to their end, and the connection is closed after the page.
  pub process_web_request_lem :
      (p v : CString) → NoSpace p → length (chomp p) ≡ length p → Routed p v
  process_web_request_lem p v h same =
      let e = ap (λ (r : List Reply × List CString). r.0) (served-request p v h same) in
      record {
        index = λ at. e ∙ ap (λ page. page ++ shut_down ∷ []) (index_page inputs p at);
        reconnect = λ more at.
            e
            ∙ ap (λ page. page ++ shut_down ∷ [])
                (ap (λ t. answer inputs (drop_slash t)) at ∙ reconnect_page inputs more);
        missing = λ some_char no_slash other.
            e
            ∙ ap (λ page. page ++ shut_down ∷ []) (missing_page inputs p some_char no_slash other);
        drained = ap (λ (r : List Reply × List CString). r.1) (served-request p v h same);
      }

  -- What is no such request is answered by 501.
  pub served_other :
      (line : CString)
      → match_get line ≡ none
      → served line ≡ (not_implemented_501 ∷ shut_down ∷ [], headers)
  unfolding process_web_request
  served_other line e = rw (e, process_web_request) refl
