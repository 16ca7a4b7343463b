-- ===== src/Url/RoundTrip.antt =====
-- What `chansrc_init` reads from a URL that is put together from its parts, and what `is_valid_url` accepts.
use native.Mathlib.Nat.{pow-succ'}
use Prim.Native.Nat.{ℕ, suc, ◌+◌, ◌-◌, ◌*◌, ◌^◌, ◌<◌}
use mptsd.Base.{
  ◌≡◌, ◌≢◌, refl, ap, sym, subst, List, map, length, has_prefix, has_prefix_iff, eq_of_str_eq,
  str_eq_refl, ◌&&◌, ◌∙◌, Bool, true, false, [], ◌∷◌, ◌++◌, none, some, CString, codes, str_eq,
  ◌==◌, arith, All, if◌then◌else◌, ◌↔◌,
}
use mptsd.Url.{
  span, is_lower, is_host, is_digit, port_groups, host_groups, proto_groups, match_url,
  chansrc_init, get_sproto, digits_value, ChanSrc, tcp_sock, is_valid_url,
}

-- The text is empty or starts with a character that fails the test.
abbrev StopsAt : (ℕ → Bool) → CString → Type 0
StopsAt p [] = Unit {0}
StopsAt p (c ∷ s) = p c ≡ false

span-append :
    (p : ℕ → Bool) (xs ys : CString)
    → All (λ c. p c ≡ true) xs
    → StopsAt p ys
    → span p (xs ++ ys) ≡ (xs, ys)
unfolding span
span-append p [] [] h e = refl
span-append p [] (y ∷ ys) h e = rw e
span-append p (x ∷ xs) ys h e = rw (h.0, span-append p xs ys h.1 e)

-- proto://host:port/path
abbrev pub url_of : CString → CString → CString → CString → CString
url_of proto host port path =
    proto ++ (b':' ∷ b'/' ∷ b'/' ∷ (host ++ (b':' ∷ (port ++ (b'/' ∷ path)))))

match_url-url_of :
    (p : ℕ) (ps : CString) (h : ℕ) (hs : CString) (port path : CString)
    → All (λ c. is_lower c ≡ true) (p ∷ ps)
    → All (λ c. is_host c ≡ true) (h ∷ hs)
    → All (λ c. is_digit c ≡ true) port
    → match_url (url_of (p ∷ ps) (h ∷ hs) port path)
      ≡ some (record { proto = p ∷ ps; host = h ∷ hs; port = port; path = path })
unfolding match_url
match_url-url_of p ps h hs port path lower plain digits =
    ap proto_groups (
      span-append is_lower (p ∷ ps)
        (b':' ∷ b'/' ∷ b'/' ∷ h ∷ (hs ++ (b':' ∷ (port ++ (b'/' ∷ path))))) lower refl)
    ∙ ap (host_groups (p ∷ ps))
        (span-append is_host (h ∷ hs) (b':' ∷ (port ++ (b'/' ∷ path))) plain refl)
    ∙ ap (λ g. some (port_groups (p ∷ ps) (h ∷ hs) g))
        (span-append is_digit port (b'/' ∷ path) digits refl)

-- The number that decimal digits stand for.
unfoldable pub number_of : List ℕ → ℕ
number_of [] = 0
number_of (d ∷ ds) = d * 10 ^ length ds + number_of ds

abbrev pub port_text : List ℕ → CString
port_text ds = map (λ d. d + b'0') ds

one_digit : (acc d k : ℕ) → (acc * 10 + (d + b'0' - b'0')) * 10 ^ k ≡ acc * 10 ^ suc k + d * 10 ^ k
one_digit acc d k =
    let same : d + b'0' - b'0' ≡ d = omega arith in rw (same, pow-succ') (grind arith)

digits_value-port_text :
    (acc : ℕ) (ds : List ℕ) → digits_value acc (port_text ds) ≡ acc * 10 ^ length ds + number_of ds
unfolding digits_value number_of
digits_value-port_text acc [] = grind arith
digits_value-port_text acc (d ∷ ds) =
    omega
      (arith, digits_value-port_text (acc * 10 + (d + b'0' - b'0')) ds, one_digit acc d (length ds))

is_digit-port_text :
    (ds : List ℕ) → All (λ d. d < 10) ds → All (λ c. is_digit c ≡ true) (port_text ds)
is_digit-port_text [] h = tt
is_digit-port_text (d ∷ ds) (small, h) = (ground arith, is_digit-port_text ds h)

-- A text of a protocol's letters is found at the start of a URL only where it is at that of the protocol.
has_prefix-url_of :
    (proto t : CString) (more : CString)
    → All (λ c. is_lower c ≡ true) t
    → has_prefix (proto ++ (b':' ∷ more)) t ≡ has_prefix proto t
unfolding has_prefix
has_prefix-url_of proto [] more h = refl
has_prefix-url_of [] (y ∷ ys) more (lower, h) = ground arith
has_prefix-url_of (x ∷ xs) (y ∷ ys) more (lower, h) =
    ap (λ b. x == y && b) (has_prefix-url_of xs ys more h)

-- A source that is what its parts say; port 0 becomes 80.
pub record ReadFrom (proto host : CString) (port : ℕ) (path : CString) (src : ChanSrc)
    : Type 0 where
  pub proto_read : src.proto ≡ proto
  pub host_read : src.host ≡ host
  pub path_read : src.path ≡ path
  pub port_read : src.port ≡ (if port == 0 then 80 else port)
  pub http : (src.sproto ≡ tcp_sock) ↔ ((rest : CString) × (proto ≡ codes "http" ++ rest))
  pub rtp_read : (src.rtp ≡ true) ↔ (proto ≡ codes "rtp")

get_sproto_lem :
    (url : CString) → (get_sproto url ≡ tcp_sock) ↔ (has_prefix url (codes "http") ≡ true)
unfolding get_sproto
get_sproto_lem url = (λ e. ground arith, λ e. ground arith)

get_sproto-url_of :
    (proto host port path : CString)
    → (get_sproto (url_of proto host port path) ≡ tcp_sock)
      ↔ ((rest : CString) × (proto ≡ codes "http" ++ rest))
get_sproto-url_of proto host port path =
    let at_start =
      has_prefix-url_of proto (codes "http")
        (b'/' ∷ b'/' ∷ (host ++ (b':' ∷ (port ++ (b'/' ∷ path)))))
        (refl, (refl, (refl, (refl, tt)))) in
    let (to, from) = get_sproto_lem (url_of proto host port path) in
    let (found, put) = has_prefix_iff proto (codes "http") in
    (λ e. found (sym at_start ∙ to e), λ r. from (at_start ∙ put r))

str_eq_iff : (s t : CString) → (str_eq s t ≡ true) ↔ (s ≡ t)
str_eq_iff s t = (eq_of_str_eq s t, λ e. subst (λ u. str_eq s u ≡ true) e (str_eq_refl s))

-- A URL of a protocol of lower case letters, a host without ':', '/' and '?', a port of decimal digits
-- that an int holds, and any path is split into these parts; port 0 becomes 80. The source is read over
-- TCP exactly when the protocol begins with "http", and is taken for RTP exactly when it is "rtp".
pub chansrc_init-url_of :
    (p : ℕ) (ps : CString) (h : ℕ) (hs : CString) (ds : List ℕ) (path : CString)
    → All (λ c. is_lower c ≡ true) (p ∷ ps)
    → All (λ c. is_host c ≡ true) (h ∷ hs)
    → All (λ d. d < 10) ds
    → number_of ds < 2 ^ 31
    → (src : ChanSrc) × (chansrc_init (some (url_of (p ∷ ps) (h ∷ hs) (port_text ds) path))
        ≡ some src)
      × ReadFrom (p ∷ ps) (h ∷ hs) (number_of ds) path src
unfolding chansrc_init
chansrc_init-url_of p ps h hs ds path lower plain digits holds =
    let iport = digits_value 0 (port_text ds) in
    let value : iport ≡ number_of ds = omega (arith, digits_value-port_text 0 ds) in
    (
      record {
        proto = p ∷ ps;
        sproto = get_sproto (url_of (p ∷ ps) (h ∷ hs) (port_text ds) path);
        host = h ∷ hs;
        port = if iport == 0 then 80 else iport;
        path = path;
        rtp = str_eq (p ∷ ps) (codes "rtp");
      },
      rw
          (
            match_url-url_of p ps h hs (port_text ds) path lower plain
                (is_digit-port_text ds digits),
            chansrc_init,
          )
          refl,
      record {
        proto_read = refl;
        host_read = refl;
        path_read = refl;
        port_read = ap (λ v. if v == 0 then 80 else v) value;
        http = get_sproto-url_of (p ∷ ps) (h ∷ hs) (port_text ds) path;
        rtp_read = str_eq_iff (p ∷ ps) (codes "rtp");
      },
    )

-- A URL that the configuration accepts is one that a connection can parse, and no other is.
pub chansrc_init_iff_valid :
    (url : CString) → (is_valid_url url ≡ true) ↔ (chansrc_init (some url) ≢ none)
unfolding is_valid_url chansrc_init
chansrc_init_iff_valid url = (λ h. ground arith, λ h. ground arith)
