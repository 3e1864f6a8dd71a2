-- ===== src/Manifest.antt =====
-- src/rtlfarm/expand/pack.py: the manifest and its digest.
use rtlfarm.Prelude.{ℕ, String, List, [], ◌∷◌, ◌==◌, if◌then◌else◌}
use rtlfarm.Models.{Role, rtl, include, tb, data', role_eq, Pipeline}
use rtlfarm.Json.{Json, num, str, arr, obj, Items, nil, cons, end, field, Codec}

pub record ManifestEntry : Type 0 where
  pub path : String
  pub role : Role
  pub ordinal : ℕ
  pub sha256 : String
  pub size : ℕ

pub record Manifest : Type 0 where
  pub design : String
  pub files : List ManifestEntry
  pub pipeline : Pipeline
  pub manifest_version : ℕ

abbrev pub role_name : Role → String
role_name rtl = "rtl"
role_name include = "include"
role_name tb = "tb"
role_name data' = "data"

abbrev pub entry_json : ManifestEntry → Json
entry_json f = obj (
    field "path" (str f.path) (
      field "role" (str (role_name f.role)) (
        field "ordinal" (num f.ordinal)
          (field "sha256" (str f.sha256) (field "size" (num f.size) end)))))

abbrev pub entries_json : List ManifestEntry → Items
entries_json [] = nil
entries_json (f ∷ fs) = cons (entry_json f) (entries_json fs)

module _ (c : Codec) (m : Manifest) where
  unfoldable pub to_dict : Json
  to_dict = obj (
      field "manifest_version" (num m.manifest_version) (
        field "design" (str m.design) (
          field "files" (arr (entries_json m.files))
            (field "pipeline" (c.model_dump m.pipeline) end))))

  unfoldable pub canonical_json : String
  unfolding to_dict
  canonical_json = c.dumps to_dict

  unfoldable pub digest : String
  unfolding canonical_json
  digest = c.sha256 canonical_json

abbrev paths_of : List ManifestEntry → Role → List String
paths_of [] role = []
paths_of (f ∷ fs) role =
    let rest = paths_of fs role in if f.role == role then f.path ∷ rest else rest

-- Manifest.paths
unfoldable pub paths : Manifest → Role → List String
paths m role = paths_of m.files role
