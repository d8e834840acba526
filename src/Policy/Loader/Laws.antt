-- ===== src/Policy/Loader/Laws.antt =====
-- Which policies a directory gives.
use ghost_guard.Prelude.{
  String, Bool, true, false, not, ◌&&◌, ◌≡◌, refl, ◌∙◌, Option, none, some, List, [], ◌∷◌, arith,
  ◌==◌, if◌then◌else◌, any, Option-cases, Bool-cases, inl, inr, is_some,
}
use ghost_guard.Dict.{Dict, lookup, insert}
use ghost_guard.Dict.Laws.{lookup-insert}
use ghost_guard.Policy.Loader.{DirEntry, is_policy, load_entries, load_policies_from_dir}

-- A policy file that cannot be read.
abbrev pub is_unreadable : DirEntry → Bool
is_unreadable e = is_policy e && not (is_some e.content)

-- The content of the last policy file of the name, or what there was before.
abbrev pub content_of : String → List DirEntry → Option String → Option String
content_of name [] before = before
content_of name (e ∷ es) before =
    content_of name es (if is_policy e && e.name == name then e.content else before)

load_entries-lookup :
    (es : List DirEntry) (ps : Dict String)
    → any is_unreadable es ≡ false
    → (qs : Dict String) × (load_entries es ps ≡ some qs)
      × ((name : String) → lookup name qs ≡ content_of name es (lookup name ps))
unfolding load_entries
load_entries-lookup [] ps h = (ps, refl, λ name. refl)
load_entries-lookup (e ∷ es) ps h = elim (Bool-cases (is_policy e)) [
  | inl policy ↦ elim (Option-cases e.content) [
    | inl unreadable ↦ absurd (ground arith)
    | inr (text, read) ↦
        let (qs, loads, finds) = load_entries-lookup es (insert e.name text ps) (ground arith) in
        (
          qs,
          rw (policy, load_entries) (rw (read, load_entries) loads),
          λ name. finds name ∙ rw (lookup-insert e.name name text ps, policy, read),
        )
  ]
  | inr passed ↦
      let (qs, loads, finds) = load_entries-lookup es ps (ground arith) in
      (qs, rw (passed, load_entries) loads, λ name. finds name ∙ rw passed)
]

load_entries-unreadable :
    (es : List DirEntry) (ps : Dict String)
    → any is_unreadable es ≡ true
    → load_entries es ps ≡ none
unfolding load_entries
load_entries-unreadable [] ps h = cc
load_entries-unreadable (e ∷ es) ps h = elim (Bool-cases (is_policy e)) [
  | inl policy ↦ elim (Option-cases e.content) [
    | inl unreadable ↦ rw (policy, load_entries) (rw (unreadable, load_entries))
    | inr (text, read) ↦
        rw (policy, load_entries)
          (rw (read, load_entries)
            (load_entries-unreadable es (insert e.name text ps) (ground arith)))
  ]
  | inr passed ↦ rw (passed, load_entries) (load_entries-unreadable es ps (ground arith))
]

-- What a loaded directory gives for a name.
abbrev pub loaded_content : String → Option (Dict String) → Option String
loaded_content name none = none
loaded_content name (some policies) = lookup name policies

-- Loading from a directory succeeds exactly when no policy file in it is unreadable; it then gives
-- each name the content of the last policy file of the name (of the only one, where names are
-- distinct), and nothing where there is none.
pub load_policies_from_dir-content_of :
    (entries : List DirEntry) (name : String)
    → (is_some (load_policies_from_dir (some entries)) ≡ not (any is_unreadable entries))
      × (loaded_content name (load_policies_from_dir (some entries))
          ≡ (if any is_unreadable entries then none else content_of name entries none))
unfolding load_policies_from_dir lookup
load_policies_from_dir-content_of entries name = elim (Bool-cases (any is_unreadable entries)) [
  | inl bad ↦ rw (bad, load_entries-unreadable entries [] bad) (refl, refl)
  | inr good ↦
      let (qs, loads, finds) = load_entries-lookup entries [] good in
      rw (good, loads) (refl, finds name)
]
