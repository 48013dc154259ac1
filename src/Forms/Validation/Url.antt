-- ===== src/Forms/Validation/Url.antt =====
-- The expression of `isValidUrl`.
pub mod Laws
use qrucial_dao.Common.{
  ℕ, suc, ◌+◌, Bool, true, false, ◌&&◌, ◌||◌, if◌then◌else◌, leb, ◌==◌, List, [], ◌∷◌,
}
use qrucial_dao.Common.Text.{Text, codes}
use qrucial_dao.Common.Regex.{
  Regex, fails, eps, one, seq, alt, star, plus, maybe, at_least, at_most,
}

-- The flag `i`: a class that names small letters takes their capitals.
abbrev pub fold : ℕ → ℕ
fold c = if leb b'A' c && leb c b'Z' then c + 32 else c

abbrev pub small : ℕ → Bool
small c = leb b'a' (fold c) && leb (fold c) b'z'

abbrev pub digit : ℕ → Bool
digit c = leb b'0' c && leb c b'9'

abbrev pub alnum : ℕ → Bool
alnum c = small c || digit c

abbrev pub lit : Text → Regex
lit [] = eps
lit (c ∷ []) = one (λ d. fold d == c)
lit (c ∷ d ∷ s) = seq (one (λ d. fold d == c)) (lit (d ∷ s))

abbrev pub is_path : ℕ → Bool
is_path c = c == b'-' || alnum c || c == b'%' || c == b'_' || c == b'.' || c == b'~' || c == b'+'

abbrev pub is_query : ℕ → Bool
is_query c =
    c == b';'
    || c == b'&'
    || alnum c
    || c == b'%'
    || c == b'_'
    || c == b'.'
    || c == b'~'
    || c == b'+'
    || c == b'='
    || c == b'-'

abbrev pub is_fragment : ℕ → Bool
is_fragment c = c == b'-' || alnum c || c == b'_'

abbrev pub protocol : Regex
protocol = maybe (seq (lit (codes "http")) (seq (maybe (lit (codes "s"))) (lit (codes "://"))))

-- `([a-z\d]([a-z\d-]*[a-z\d])*)\.`
abbrev pub domain_label : Regex
domain_label =
    seq (seq (one alnum) (star (seq (star (one (λ c. alnum c || c == b'-'))) (one alnum))))
      (lit (codes "."))

abbrev pub domain : Regex
domain = seq (plus domain_label) (at_least 2 (one small))

-- `\d{1,3}`
abbrev pub octet : Regex
octet = seq (one digit) (at_most 2 (one digit))

abbrev pub ip_part : Regex
ip_part = seq octet (lit (codes "."))

abbrev pub ip : Regex
ip = seq (seq ip_part (seq ip_part ip_part)) octet

abbrev pub port : Regex
port = maybe (seq (lit (codes ":")) (plus (one digit)))

abbrev pub path : Regex
path = star (seq (lit (codes "/")) (star (one is_path)))

abbrev pub query : Regex
query = maybe (seq (lit (codes "?")) (star (one is_query)))

abbrev pub fragment : Regex
fragment = maybe (seq (lit (codes "#")) (star (one is_fragment)))

unfoldable pub url_regex : Regex
url_regex = seq protocol (seq (alt domain ip) (seq port (seq path (seq query fragment))))
