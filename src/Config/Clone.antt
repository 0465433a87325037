-- ===== src/Config/Clone.antt =====
-- `Clone` of internal/config/config.go, on values: `append([]T(nil), s...)` of an empty slice is nil.
-- The copies of the other slices and of the maps are equal to what they copy.
use native.Mathlib.Decide.{ℕ_discrete}
use go_serve.Common.{◌≡◌, refl, Option, none, some, [], ◌∷◌, Str}
use go_serve.Config.{Config, ServerConfig, AuthConfig, ClusterConfig, Slice, items, Url}
use go_serve.Config.Validate.{validate, validate_auth, validate_cluster, validate_redirect}

abbrev pub clone_slice : {A : Type 0} → Slice A → Slice A
clone_slice none = none
clone_slice (some []) = none
clone_slice (some (x ∷ xs)) = some (x ∷ xs)

unfoldable pub clone : Config → Config
clone c = record c {
  auth = record (c.auth) { allowed_scopes = clone_slice c.auth.allowed_scopes };
  cluster = record (c.cluster) { peers = clone_slice c.cluster.peers };
}

pub ServerConfig-discrete : Discrete ServerConfig
ServerConfig-discrete = hlevel ℕ_discrete

pub AuthConfig-discrete : Discrete AuthConfig
AuthConfig-discrete = hlevel ℕ_discrete

pub ClusterConfig-discrete : Discrete ClusterConfig
ClusterConfig-discrete = hlevel ℕ_discrete

clone_slice_again : {A : Type 0} (s : Slice A) → clone_slice (clone_slice s) ≡ clone_slice s
clone_slice_again none = refl
clone_slice_again (some []) = refl
clone_slice_again (some (x ∷ xs)) = refl

items-clone : {A : Type 0} (s : Slice A) → items (clone_slice s) ≡ items s
items-clone none = refl
items-clone (some []) = refl
items-clone (some (x ∷ xs)) = refl

-- A copy of a copy is that copy.
pub clone-clone : (c : Config) → clone (clone c) ≡ clone c
unfolding clone
clone-clone c = λ i. record c {
  auth = record (c.auth) { allowed_scopes = clone_slice_again c.auth.allowed_scopes i };
  cluster = record (c.cluster) { peers = clone_slice_again c.cluster.peers i };
}

cluster-clone : (c : Config) → validate_cluster (clone c).cluster ≡ validate_cluster c.cluster
unfolding clone validate_cluster
cluster-clone c = rw items-clone

auth-clone :
    (url_parse : Str → Option Url) (c : Config)
    → validate_auth url_parse (clone c).auth ≡ validate_auth url_parse c.auth
unfolding clone validate_auth validate_redirect
auth-clone url_parse c = refl

-- A copy is accepted or refused like the original, with the same error.
pub validate-clone :
    (url_parse : Str → Option Url) (c : Config)
    → validate url_parse (clone c) ≡ validate url_parse c
unfolding clone validate
validate-clone url_parse c = rw (cluster-clone, auth-clone)
