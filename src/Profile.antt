-- ===== src/Profile.antt =====
-- The profile of an auditor: `AuditorForm` (frontend/substrate-front-end-template/src/AuditorForm.js)
-- and `CancelAccount` (CancelAccount.js).
pub mod Json
pub mod Laws
pub mod Button
use qrucial_dao.Common.{Bool, true, false, ◌||◌, Option, none, some, List, [], ◌∷◌, if◌then◌else◌}
use qrucial_dao.Common.Text.{Text, codes, text_eq}
use qrucial_dao.Forms.{FormValue, Object, undefined, text, get, put, delete}
use qrucial_dao.Chain.{Effect, toast_error}
use Json.{stringify}

-- The fields of the form: those of the auditor's data, or of a new one, without the hash. The
-- account may be missing.
unfoldable pub auditor_fields : Option (Object FormValue) → Option Text → Object FormValue
auditor_fields (some fields) address = delete (codes "profileHash") fields
auditor_fields none address = delete (codes "profileHash") (
    (codes "name", text [])
    ∷ (codes "picUrl", text [])
    ∷ (codes "webUrl", text [])
    ∷ (codes "bio", text [])
    ∷ (codes "address", (elim address [ none ↦ undefined | some a ↦ text a ]))
    ∷ [])

-- `onChange` with the name and the value of an input.
unfoldable pub on_change : Text → Text → Object FormValue → Object FormValue
on_change name value form = put name (text value) form

-- The test `formState.address != currentAccount?.address`, where null and undefined are alike and a
-- number, which no address is, differs from every address.
unfoldable pub is_other : Option FormValue → Option Text → Bool
is_other none none = false
is_other (some undefined) none = false
is_other (some FormValue.null) none = false
is_other (some (text s)) (some a) = if text_eq s a then false else true
is_other _ _ = true

-- What a press hands to `txAndPost`: the hash of the profile, and the profile with it. `keccak` is
-- `keccak_512` of the library.
unfoldable pub on_click :
    (Text → Text) → Option Text → Object FormValue → Option (Text × Object FormValue) × List Effect
on_click keccak address form =
    let hash = keccak (stringify form) in
    if is_other (get (codes "address") form) address
    then (none, toast_error (codes "No permission with this account") ∷ [])
    else (some (hash, put (codes "profileHash") (text hash) form), [])

-- `buttonLabel`.
unfoldable pub button_label : Text → Option Text
button_label method =
    if text_eq method (codes "signUp")
    then some (codes "Sign Up")
    else if text_eq method (codes "updateProfile")
    then some (codes "Update Profile")
    else none

-- The fields that have an input.
unfoldable pub has_input : Text → Bool
has_input key =
    if text_eq key (codes "address")
      || text_eq key (codes "profileHash")
      || text_eq key (codes "auditsDone")
    then false
    else true

unfoldable pub input_fields : Object FormValue → List Text
input_fields [] = []
input_fields ((key, v) ∷ o) =
    let rest = input_fields o in if has_input key then key ∷ rest else rest

-- The profile that a cancelled account leaves at the server: nothing but the address.
unfoldable pub cancelled : Object FormValue → Object FormValue
cancelled [] = []
cancelled ((key, v) ∷ o) =
    (if text_eq key (codes "address") then (key, v) else (key, text [])) ∷ cancelled o
