-- ===== src/Forms/Validation/Url/Laws.antt =====
-- What a valid url can hold.
use qrucial_dao.Common.{
  ℕ, ◌≡◌, refl, Bool, true, ◌&&◌, ◌||◌, leb, ◌==◌, ==_iff, arith, All, Bool-cases, inl, inr, sym,
  [], ◌∷◌,
}
use mathlib.Core.Path.{subst}
use qrucial_dao.Common.Text.{Text, codes}
use qrucial_dao.Common.Regex.{test}
use qrucial_dao.Common.Regex.Language.{Within, All-Matches, test_iff}
use qrucial_dao.Forms.Validation.Url.{
  lit, protocol, domain, domain_label, octet, ip_part, url_regex, small, digit, alnum, is_path,
  is_query, is_fragment, fold,
}

-- A letter, a digit, or one of `- : / . ? ; & % _ ~ + = #`.
unfoldable pub is_url_char : ℕ → Bool
is_url_char c =
    (leb b'A' c && leb c b'Z')
    || (leb b'a' c && leb c b'z')
    || digit c
    || c == b'-'
    || c == b':'
    || c == b'/'
    || c == b'.'
    || c == b'?'
    || c == b';'
    || c == b'&'
    || c == b'%'
    || c == b'_'
    || c == b'~'
    || c == b'+'
    || c == b'='
    || c == b'#'

abbrev pub IsUrlChar : ℕ → Type 0
IsUrlChar c = is_url_char c ≡ true

alnum-IsUrlChar : (c : ℕ) → alnum c ≡ true → IsUrlChar c
unfolding is_url_char
alnum-IsUrlChar c h = ground arith

small-IsUrlChar : (c : ℕ) → small c ≡ true → IsUrlChar c
unfolding is_url_char
small-IsUrlChar c h = ground arith

digit-IsUrlChar : (c : ℕ) → digit c ≡ true → IsUrlChar c
unfolding is_url_char
digit-IsUrlChar c h = ground arith

label-IsUrlChar : (c : ℕ) → (alnum c || c == b'-') ≡ true → IsUrlChar c
unfolding is_url_char
label-IsUrlChar c h = ground arith

path-IsUrlChar : (c : ℕ) → is_path c ≡ true → IsUrlChar c
unfolding is_url_char
path-IsUrlChar c h = ground arith

query-IsUrlChar : (c : ℕ) → is_query c ≡ true → IsUrlChar c
unfolding is_url_char
query-IsUrlChar c h = ground arith

fragment-IsUrlChar : (c : ℕ) → is_fragment c ≡ true → IsUrlChar c
unfolding is_url_char
fragment-IsUrlChar c h = ground arith

capital-IsUrlChar : (d : ℕ) → (leb b'A' d && leb d b'Z') ≡ true → IsUrlChar d
unfolding is_url_char
capital-IsUrlChar d h = ground arith

fold-IsUrlChar : (c d : ℕ) → IsUrlChar c → (fold d == c) ≡ true → IsUrlChar d
fold-IsUrlChar c d k h = elim (Bool-cases (leb b'A' d && leb d b'Z')) [
  | inl capital ↦ capital-IsUrlChar d capital
  | inr other ↦ subst IsUrlChar (sym (rw other at ((==_iff (fold d) c).0 h))) k
]

lit-Within : (s : Text) → All IsUrlChar s → Within IsUrlChar (lit s)
lit-Within [] k = tt
lit-Within (c ∷ []) (k, _) = λ d h. fold-IsUrlChar c d k h
lit-Within (c ∷ d ∷ s) (k, ks) = ((λ e h. fold-IsUrlChar c e k h), lit-Within (d ∷ s) ks)

octet-Within : Within IsUrlChar octet
octet-Within = (digit-IsUrlChar, ((digit-IsUrlChar, ((digit-IsUrlChar, tt), tt)), tt))

ip_part-Within : Within IsUrlChar ip_part
unfolding is_url_char
ip_part-Within = (octet-Within, lit-Within (codes ".") (refl, tt))

protocol-Within : Within IsUrlChar protocol
unfolding is_url_char
protocol-Within = (
  (
    lit-Within (codes "http") (refl, (refl, (refl, (refl, tt)))),
    ((lit-Within (codes "s") (refl, tt), tt), lit-Within (codes "://") (refl, (refl, (refl, tt)))),
  ),
  tt,
)

domain-Within : Within IsUrlChar domain
unfolding is_url_char
domain-Within = ((one_label, one_label), (small-IsUrlChar, (small-IsUrlChar, small-IsUrlChar)))
  where
    one_label : Within IsUrlChar domain_label
    one_label =
        ((alnum-IsUrlChar, (label-IsUrlChar, alnum-IsUrlChar)), lit-Within (codes ".") (refl, tt))

url_regex-Within : Within IsUrlChar url_regex
unfolding url_regex is_url_char
url_regex-Within = (
  protocol-Within,
  (
    (domain-Within, ((ip_part-Within, (ip_part-Within, ip_part-Within)), octet-Within)),
    (
      ((lit-Within (codes ":") (refl, tt), (digit-IsUrlChar, digit-IsUrlChar)), tt),
      (
        (lit-Within (codes "/") (refl, tt), path-IsUrlChar),
        (
          ((lit-Within (codes "?") (refl, tt), query-IsUrlChar), tt),
          ((lit-Within (codes "#") (refl, tt), fragment-IsUrlChar), tt),
        ),
      ),
    ),
  ),
)

-- Every code unit of a valid url is a letter, a digit, or one of `- : / . ? ; & % _ ~ + = #`, so
-- that no white space, quote or bracket passes.
pub url_regex-IsUrlChar : (s : Text) → test url_regex s ≡ true → All IsUrlChar s
url_regex-IsUrlChar s h =
    All-Matches IsUrlChar url_regex s url_regex-Within ((test_iff url_regex s).0 h)
