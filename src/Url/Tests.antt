-- ===== src/Url/Tests.antt =====
-- Runs on source URLs.
use mptsd.Base.{ℕ, ◌≡◌, refl, List, [], ◌∷◌, some, codes, arith}
use mptsd.Url.{ChanSrc, tcp_sock, udp_sock, chansrc_init, get_sproto}
use mptsd.Url.RoundTrip.{ReadFrom, url_of, port_text, chansrc_init-url_of}

abbrev port : List ℕ
port = 5 ∷ 0 ∷ 0 ∷ 4 ∷ []

chansrc_init-url_of_example :
    (src : ChanSrc) × (chansrc_init (some (codes "rtp://ab:5004/x")) ≡ some src)
    × ReadFrom (codes "rtp") (codes "ab") 5004 (codes "x") src
unfolding mptsd.Url.RoundTrip.number_of
chansrc_init-url_of_example =
    chansrc_init-url_of b'r' (codes "tp") b'a' (codes "b") port (codes "x")
      (refl, (refl, (refl, tt))) (refl, (refl, tt)) (omega arith) (omega arith)

https : get_sproto (codes "https://a/") ≡ tcp_sock
unfolding get_sproto mptsd.Base.has_prefix
https = refl

udp : get_sproto (codes "udp://http/") ≡ udp_sock
unfolding get_sproto mptsd.Base.has_prefix
udp = refl
