-- ===== src/Examples/Runs.antt =====
-- Tests of the definitions on concrete inputs.
use qrucial_dao.Common.{◌≡◌, refl, false, none, some, List, [], ◌∷◌, length}
use qrucial_dao.Common.Text.{Text, codes}
use qrucial_dao.Common.Decimal.{decimal}
use qrucial_dao.Forms.{text, number, undefined, get, put}
use qrucial_dao.Http.{Reply, read_json, caught, bad_json}
use qrucial_dao.Pool
use qrucial_dao.Pool.Order
use qrucial_dao.Profile.Json.{stringify}
use qrucial_dao.Profile.Json
use qrucial_dao.Config
use qrucial_dao.Accounts
use qrucial_dao.Pages.Auditors
use qrucial_dao.Profile.Button
use qrucial_dao.Challenges.Reported
use qrucial_dao.Challenges
use qrucial_dao.Examples.Values.{alice}

-- An auditor whose name is the address of another is replaced by the other's card.
abbrev ann : Pool.Auditor
ann = record { address = codes "A1"; name = some (codes "B2"); more = [] }

abbrev bob : Pool.Auditor
bob = record { address = codes "B2"; name = none; more = [] }

abbrev entry : Pool.Entry
entry = record { score = some 3; approved_by = [] }

one_card : length (Pool.on_answers ((ann, some entry) ∷ (bob, some entry) ∷ []) []) ≡ 1
unfolding Pool.on_answers Pool.on_answer Pool.holds
one_card = refl

-- Two cards of one score without names each come after the other.
abbrev unnamed : Pool.Card
unnamed = record { auditor = bob; score = none; approved_by_count = 0 }

each_after :
    (compare : Pool.Order.Locale)
    → Pool.Order.compare_cards compare unnamed unnamed ≡ Pool.Order.more
unfolding Pool.Order.compare_cards Pool.Order.by_name
each_after compare = refl

long_name : Pool.display_name (some (codes "Ann of Auditors")) ≡ codes "Ann of Au..."
unfolding Pool.display_name
long_name = refl

-- A quote is escaped, and a member without a value is left out.
json_text :
    stringify (
      (codes "name", text (codes "a\"b"))
      ∷ (codes "address", undefined)
      ∷ (codes "n", number 12)
      ∷ [])
    ≡ codes "{\"name\":\"a\\\"b\",\"n\":12}"
unfolding stringify Json.members Json.value_json Json.quote_units Json.quote_unit decimal
json_text = refl

control_escape : Json.quote_unit 31 ≡ codes "\\u001f"
unfolding Json.quote_unit Json.unicode_escape
control_escape = refl

-- The environment wins over the files, and the query over both.
abbrev files : List (Text × Text)
files = (codes "PROVIDER_SOCKET", codes "ws://file") ∷ []

socket_of_env :
    Config.connected_socket none
      (Config.config [] files ((codes "REACT_APP_PROVIDER_SOCKET", codes "ws://env") ∷ []))
    ≡ some (codes "ws://env")
unfolding Config.connected_socket Config.config Config.spread Config.env_vars get put
socket_of_env = refl

socket_of_query : Config.connected_socket (some (codes "ws://q")) files ≡ some (codes "ws://q")
unfolding Config.connected_socket
socket_of_query = refl

-- The first account becomes the current one; a cleared menu throws.
first_account : Accounts.on_effect (alice ∷ []) none ≡ some (some alice)
unfolding Accounts.on_effect Accounts.initial_address
first_account = refl

cleared_menu : Accounts.on_change (alice ∷ []) [] ≡ none
unfolding Accounts.on_change
cleared_menu = refl

balance_of :
    Accounts.balances_map (alice ∷ []) (codes "7" ∷ []) ≡ some ((codes "5Grw", codes "7") ∷ [])
unfolding Accounts.balances_map Accounts.balances_from put
balance_of = refl

waits :
    Auditors.view (some (record { score = none; approved_by = codes "A1" ∷ [] }))
    ≡ Auditors.waiting 1
unfolding Auditors.view
waits = refl

hashes_once :
    Challenges.audit_hashes
      (((codes "h", 0), []) ∷ ((codes "g", 0), []) ∷ ((codes "h", 1), []) ∷ [])
    ≡ codes "h" ∷ codes "g" ∷ []
unfolding Challenges.audit_hashes
hashes_once = refl

refused_body :
    read_json {B = Reply} (bad_json false 502 (codes "Bad Gateway") [])
    ≡ caught (codes "502 Bad Gateway")
unfolding read_json decimal
refused_body = refl

euro_bytes : Button.utf8_length (0x20ac ∷ b'a' ∷ 0xd83d ∷ 0xde09 ∷ []) ≡ 8
unfolding Button.utf8_length
euro_bytes = refl

-- An answer that comes twice puts its report into the list twice.
twice :
    length (
      Reported.reports_state (
        Reported.on_vulnerabilities 0 none (
          Reported.on_vulnerabilities 0 none (
            Reported.on_reports
              (codes "h")
              (some (record { auditor = codes "A1"; kind = codes "Manual" } ∷ []))
              (record { objects = []; audit_reports = [] })))))
    ≡ 2
unfolding Reported.reports_state Reported.on_vulnerabilities Reported.on_reports
twice = refl
