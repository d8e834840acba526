-- ===== src/Policy/Loader.antt =====
-- internal/policy/loader.go: the policies of a directory. The file system is given by what it
-- answers: `none` is an error.
pub mod Laws
use ghost_guard.Prelude.{
  String, Bool, true, false, not, ◌&&◌, Option, none, some, List, [], ◌∷◌, if◌then◌else◌,
  has_suffix,
}
use ghost_guard.Dict.{Dict, insert}

-- An entry of os.ReadDir, with what os.ReadFile gives at its path.
pub record DirEntry : Type 0 where
  pub name : String
  pub is_dir : Bool
  pub content : Option String

-- The loop passes over directories and over names that do not end in ".rego".
unfoldable pub is_policy : DirEntry → Bool
is_policy e = not e.is_dir && has_suffix e.name ".rego"

unfoldable pub load_entries : List DirEntry → Dict String → Option (Dict String)
load_entries [] policies = some policies
load_entries (e ∷ es) policies = elim (is_policy e) [
  | false ↦ load_entries es policies
  | true ↦ elim e.content [
    | none ↦ none
    | some content ↦ load_entries es (insert e.name content policies)
  ]
]

-- LoadPoliciesFromDir; the argument is what os.ReadDir gives.
unfoldable pub load_policies_from_dir : Option (List DirEntry) → Option (Dict String)
unfolding load_entries
load_policies_from_dir none = none
load_policies_from_dir (some entries) = load_entries entries []

-- LoadPolicyFile; the argument is what os.ReadFile gives.
abbrev pub load_policy_file : Option String → Option String
load_policy_file content = content
