-- ===== src/Web/Tests.antt =====
-- Requests for the pages.
use mptsd.Base.{◌≡◌, refl, List, [], ◌∷◌, ◌++◌, CString, codes, true, arith}
use mptsd.Web.{
  ok_200, header_textplain, shut_down, text_number, not_implemented_501, process_web_request,
}
use mptsd.Web.Routes.{Routed, process_web_request_lem}
use mptsd.Samples.{new_input}

abbrev headers : List CString
headers = codes "Host: x" ∷ (13 ∷ []) ∷ codes "more" ∷ []

process_web_request_example :
    Routed (λ s. s) (new_input 3 ∷ []) headers (codes "reconnect/") (codes ".0")
process_web_request_example =
    process_web_request_lem (λ s. s) (new_input 3 ∷ []) headers (codes "reconnect/") (codes ".0")
      (omega arith) refl

reconnects :
    process_web_request
      (λ s. s)
      true
      (new_input 3 ∷ [])
      (codes "GET /reconnect/ HTTP/1.0" ∷ headers)
    ≡ (
      ok_200
          ∷ header_textplain
          ∷ text_number (10 ∷ codes "Reconnecting ") 1 (codes " inputs." ++ 10 ∷ [])
          ∷ shut_down
          ∷ [],
      codes "more" ∷ [],
    )
unfolding process_web_request
reconnects = refl

refuses_post :
    process_web_request (λ s. s) true [] (codes "POST / HTTP/1.0" ∷ [])
    ≡ (not_implemented_501 ∷ shut_down ∷ [], [])
unfolding process_web_request
refuses_post = refl
