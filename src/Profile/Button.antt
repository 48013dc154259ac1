-- ===== src/Profile/Button.antt =====
-- The button that signs a profile hash
-- (frontend/substrate-front-end-template/src/AuditorButton.js).
use qrucial_dao.Common.{
  ℕ, ◌+◌, Bool, not, ◌&&◌, Option, none, some, [], ◌∷◌, if◌then◌else◌, ltb, leb,
}
use qrucial_dao.Common.Text.{Text}
use qrucial_dao.Profile.Json.{is_lead, is_trail}

-- `new TextEncoder().encode(str).length`: the bytes in UTF-8, where a code unit that stands outside
-- of a pair is encoded as U+FFFD.
unfoldable pub utf8_length : Text → ℕ
utf8_length [] = 0
utf8_length (c ∷ []) = if ltb c 0x80 then 1 else if ltb c 0x800 then 2 else 3
utf8_length (c ∷ d ∷ s) =
    let after_pair = utf8_length s in
    let rest = utf8_length (d ∷ s) in
    if is_lead c && is_trail d
    then 4 + after_pair
    else if ltb c 0x80
    then 1 + rest
    else if ltb c 0x800
    then 2 + rest
    else 3 + rest

unfoldable pub check_if_valid_sha256 : Text → Bool
check_if_valid_sha256 str = leb 32 (utf8_length str)

-- The effect on the hash: the property `disabled` of the button.
unfoldable pub is_disabled : Text → Bool
is_disabled hash = not (check_if_valid_sha256 hash)

-- The effect on the method: it is kept where the node has it in the module.
unfoldable pub known_method : (Text → Bool) → Text → Option Text
known_method has_method method = if has_method method then some method else none
