-- ===== src/Common/Regex.antt =====
-- Regular expressions anchored at both ends, and `test` by derivatives: the part of RegExp that
-- the forms use.
pub mod Language
use qrucial_dao.Common.Tests.{if◌then◌else◌}
use qrucial_dao.Common.Text.{Text}
use Prim.Native.Nat.{ℕ, zero, suc}
use mathlib.Core.Bool.{Bool, true, false, ◌&&◌, ◌||◌}
use mathlib.Core.List.{List, [], ◌∷◌}

pub data Regex : Type 0 where
  -- Nothing, the empty text, and one code unit of a class.
  fails eps : Regex
  one : (ℕ → Bool) → Regex
  seq alt : Regex → Regex → Regex
  star : Regex → Regex

unfoldable pub nullable : Regex → Bool
nullable fails = false
nullable eps = true
nullable (one p) = false
nullable (seq r q) = nullable r && nullable q
nullable (alt r q) = nullable r || nullable q
nullable (star r) = true

-- `seq` and `alt` that keep derivatives small.
unfoldable pub mk_seq : Regex → Regex → Regex
mk_seq fails q = fails
mk_seq eps q = q
mk_seq r q = seq r q

unfoldable pub mk_alt : Regex → Regex → Regex
mk_alt fails q = q
mk_alt r fails = r
mk_alt r q = alt r q

-- What is left to match after the code unit `c`.
unfoldable pub deriv : ℕ → Regex → Regex
unfolding nullable mk_seq mk_alt
deriv c fails = fails
deriv c eps = fails
deriv c (one p) = if p c then eps else fails
deriv c (seq r q) =
    let first = mk_seq (deriv c r) q in
    let second = deriv c q in mk_alt first (if nullable r then second else fails)
deriv c (alt r q) = mk_alt (deriv c r) (deriv c q)
deriv c (star r) = mk_seq (deriv c r) (star r)

unfoldable pub test : Regex → Text → Bool
unfolding deriv
test r [] = nullable r
test r (c ∷ s) = test (deriv c r) s

-- `r+`, `r?`, `r{n,}` and `r{0,n}`.
abbrev pub plus : Regex → Regex
plus r = seq r (star r)

abbrev pub maybe : Regex → Regex
maybe r = alt r eps

abbrev pub at_least : ℕ → Regex → Regex
at_least zero r = star r
at_least (suc n) r = seq r (at_least n r)

abbrev pub at_most : ℕ → Regex → Regex
at_most zero r = eps
at_most (suc n) r = maybe (seq r (at_most n r))
