-- ===== src/Config.antt =====
-- The configuration (frontend/substrate-front-end-template/src/config/index.js), and the socket that
-- the provider connects to (substrate-lib/SubstrateContext.js).
use qrucial_dao.Common.{ℕ, zero, suc, Option, none, some, List, [], ◌∷◌, if◌then◌else◌}
use qrucial_dao.Common.Text.{Text, codes, is_empty}
use qrucial_dao.Forms.{Object, get, put}

-- `s.slice(n)`.
abbrev pub drop : ℕ → Text → Text
drop zero s = s
drop (suc n) [] = []
drop (suc n) (c ∷ s) = drop n s

abbrev pub env_var_names : List Text
env_var_names = codes "REACT_APP_PROVIDER_SOCKET" ∷ []

-- The variables of the environment that are set, without the prefix `REACT_APP_`.
unfoldable pub env_vars : List Text → Object Text → Object Text → Object Text
env_vars [] env mem = mem
env_vars (n ∷ names) env mem = elim (get n env) [
  | none ↦ env_vars names env mem
  | some v ↦ env_vars names env (put (drop 10 n) v mem)
]

-- `{ ...target, ...o }`.
unfoldable pub spread : Object Text → Object Text → Object Text
spread target [] = target
spread target ((key, v) ∷ o) = spread (put key v target) o

-- The texts of the configuration: the common file, that of `NODE_ENV`, the environment.
unfoldable pub config : Object Text → Object Text → Object Text → Object Text
config common of_env env = spread (spread common of_env) (env_vars env_var_names env [])

-- `parsedQuery.get('rpc') || config.PROVIDER_SOCKET`.
unfoldable pub connected_socket : Option Text → Object Text → Option Text
connected_socket none conf = get (codes "PROVIDER_SOCKET") conf
connected_socket (some rpc) conf =
    if is_empty rpc then get (codes "PROVIDER_SOCKET") conf else some rpc
