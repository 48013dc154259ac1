-- ===== src/Requests/Laws.antt =====
-- What is requested, and which audits are offered.
use qrucial_dao.Common.{
  ◌≡◌, ◌≢◌, ◌≤◌, ◌<◌, refl, ap, true, false, Option, some, List, [], ◌∷◌, length, All, Bool-cases,
  inl, inr, arith,
}
use qrucial_dao.Common.Text.{Text, codes, starts_with}
use qrucial_dao.Forms.{text, get, to_text}
use qrucial_dao.Forms.Validation.{Hook, revalidate, rule}
use qrucial_dao.Forms.Validation.Url.{url_regex}
use qrucial_dao.Common.Regex.Language.{Matches}
use qrucial_dao.Forms.Validation.Laws.{revalidate-disabled_iff}
use qrucial_dao.Requests.{RequestForm, to_object, h256_hash, on_click, Audit, non_taken}

h256_hash-starts : (h : Text) → starts_with (h256_hash h) (codes "0x") ≡ true
unfolding h256_hash
h256_hash-starts h = elim (Bool-cases (starts_with h (codes "0x"))) [
  | inl e ↦ rw e e
  | inr e ↦ rw e refl
]

h256_hash-long : (h : Text) → 64 ≤ length h → 64 ≤ length (h256_hash h)
unfolding h256_hash
h256_hash-long h l = ground arith

length-text : {h s : Text} → text h ≡ text s → 63 < length s → 64 ≤ length h
length-text {h} {s} e l = let path = ap to_text e in rw path (omega arith)

-- A press on the enabled button: the url matches the expression for urls, the hash begins with 0x
-- and has 64 code units at least, and the server gets the url and the hash of the extrinsic.
pub on_click-enabled :
    (requestor : Option Text) (f : RequestForm) (h : Hook) {h' : Hook}
    → revalidate (to_object f) h ≡ some h'
    → h'.disabled ≡ false
    → let (tx, body) = on_click requestor f in
      Matches url_regex tx.url
      × (starts_with tx.hash (codes "0x") ≡ true)
      × (64 ≤ length tx.hash)
      × (get (codes "hash") body ≡ some (text tx.hash))
      × (get (codes "projectUrl") body ≡ some (text tx.url))
unfolding on_click to_object rule get
on_click-enabled requestor f h e d =
    let (url, (hash, _)) = (revalidate-disabled_iff (to_object f) h e).0 d in
    let (s, p, l) = hash in
    (url, h256_hash-starts f.hash, h256_hash-long f.hash (length-text p l), refl, refl)

-- An account with an address longer than 16 is offered no audit that it has taken already.
pub non_taken-apart :
    (address : Text) (audits : List Audit)
    → 16 < length address
    → All (λ a. a.top_auditor ≢ some address) (non_taken audits)
unfolding non_taken
non_taken-apart address [] l = tt
non_taken-apart address (a ∷ audits) l = ground (arith, non_taken-apart address audits l)
