-- ===== src/Web.antt =====
-- web_server.c: the answering of one request; web_pages.c. What is sent is a list of replies, of which the
-- status line and the header of a text are made by libfuncs.
pub mod Routes
mod Tests
use mptsd.Base.{
  ℕ, ◌+◌, Bool, true, false, List, [], ◌∷◌, ◌++◌, Option, none, some, CString, codes, has_prefix,
  length, ltb, ◌==◌, ◌||◌, not, if◌then◌else◌,
}
use mptsd.Url.{span}
use mptsd.Input.{Input}

pub data Reply : Type 0 where
  ok_200 not_found_404 not_implemented_501 header_textplain shut_down : Reply
  -- fdputs and fdputsf, as the text before a number, if there is one, and after it
  text : CString → Reply
  text_number : CString → ℕ → CString → Reply

unfoldable pub cmd_index : List Reply
cmd_index = ok_200 ∷ header_textplain ∷ text (10 ∷ (codes "Hi from mptsd." ++ 10 ∷ [])) ∷ []

-- The inputs are only counted.
unfoldable pub cmd_reconnect : List Input → List Reply
cmd_reconnect inputs =
    ok_200
    ∷ header_textplain
    ∷ text_number (10 ∷ codes "Reconnecting ") (length inputs) (codes " inputs." ++ 10 ∷ [])
    ∷ []

abbrev pub is_no_space : ℕ → Bool
is_no_space c = not (c == 32)

abbrev pub after_prefix : CString → CString → Option CString
after_prefix s [] = some s
after_prefix [] (y ∷ ys) = none
after_prefix (x ∷ xs) (y ∷ ys) = if x == y then after_prefix xs ys else none

-- "^GET /([^ ]*) HTTP/1.*$": the group, which ends at the first space.
abbrev pub group_before : CString × CString → Option CString
group_before (group, rest) = if has_prefix rest (codes " HTTP/1") then some group else none

unfoldable pub match_get : CString → Option CString
unfolding span has_prefix
match_get line = elim (after_prefix line (codes "GET /")) [
  | none ↦ none
  | some rest ↦ group_before (span is_no_space rest)
]

-- if (buf[eo-1]=='/') buf[eo-1]=0, for a path that is not empty
unfoldable pub drop_slash : CString → CString
drop_slash [] = []
drop_slash (c ∷ []) = if c == b'/' then [] else c ∷ []
drop_slash (c ∷ d ∷ s) = c ∷ drop_slash (d ∷ s)

-- A path that chomp has shortened has a zero where the slash is looked for.
unfoldable pub path_of : (CString → CString) → CString → CString
unfolding drop_slash
path_of chomp group =
    let chomped = chomp group in
    if ltb (length chomped) (length group) then chomped else drop_slash group

-- The page of a path.
unfoldable pub answer : List Input → CString → List Reply
unfolding cmd_index cmd_reconnect has_prefix
answer inputs path =
    if length path == 0
    then cmd_index
    else if has_prefix path (codes "reconnect")
    then cmd_reconnect inputs
    else not_found_404 ∷ []

-- The lines up to the empty one that ends the headers, and what is left.
unfoldable pub skip_headers : List CString → List CString
skip_headers [] = []
skip_headers ([] ∷ lines) = skip_headers lines
skip_headers ((c ∷ s) ∷ lines) =
    let rest = skip_headers lines in if c == 10 || c == 13 then lines else rest

-- The lines that fdgetline delivers, until it fails; `chomp` is libfuncs'. The second result is what is
-- left of them.
unfoldable pub process_web_request :
    (CString → CString) → Bool → List Input → List CString → List Reply × List CString
unfolding match_get path_of answer skip_headers
process_web_request chomp keep_going inputs lines =
    if not keep_going then ([], lines) else elim lines [
      | [] ↦ (shut_down ∷ [], [])
      | line ∷ headers ↦ elim (match_get line) [
        | none ↦ (not_implemented_501 ∷ shut_down ∷ [], headers)
        | some group ↦ (answer inputs (path_of chomp group) ++ shut_down ∷ [], skip_headers headers)
      ]
    ]
