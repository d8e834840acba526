-- ===== src/Detector/Analyze/Sequence.antt =====
-- The table of suspicious sequences, as pairs of tools.
use ghost_guard.Prelude.{
  String, Bool, false, ◌&&◌, ◌≡◌, refl, sym, ◌∙◌, ap, List, [], ◌∷◌, arith, ◌==◌, eq_iff, any,
  Option, none, some, is_some, inl, inr, Bool-cases,
}
use mathlib.Core.Path.{fun_ext}
use ghost_guard.Dict.{lookup}
use ghost_guard.Detector.Analyze.{dangerous_sequences, find_dangerous, suspicious_prev}

-- A tool, and an earlier tool after which it is suspicious.
abbrev pub dangerous_pairs : List (String × String)
dangerous_pairs =
    ("exec", "read_file")
    ∷ ("exec", "get_config")
    ∷ ("exec", "list_files")
    ∷ ("file_write", "read_file")
    ∷ ("file_write", "list_files")
    ∷ ("shell", "read_file")
    ∷ ("shell", "get_config")
    ∷ ("bash", "read_file")
    ∷ ("bash", "get_config")
    ∷ ("http_request", "read_file")
    ∷ []

abbrev pub is_dangerous : String → String → Bool
is_dangerous name prev = any (λ q. q.0 == name && prev == q.1) dangerous_pairs

is_some-find_dangerous :
    (dangerous prev : List String)
    → is_some (find_dangerous dangerous prev) ≡ any (λ p. any (λ dp. p == dp) dangerous) prev
unfolding find_dangerous
is_some-find_dangerous dangerous [] = refl
is_some-find_dangerous dangerous (p ∷ prev) = ground (arith, is_some-find_dangerous dangerous prev)

abbrev dangerous_of : Option (List String) → List String
dangerous_of none = []
dangerous_of (some l) = l

-- The map of the code and the table of pairs agree on `name`.
abbrev Listed : String → Type 0
Listed name =
    (p : String)
    → any (λ dp. p == dp) (dangerous_of (lookup name dangerous_sequences)) ≡ is_dangerous name p

-- It is enough to look at a name of the table, or at one that is none of them.
Listed-from :
    (text name : String) → Listed text → ((text == name) ≡ false → Listed name) → Listed name
Listed-from text name here other = elim (Bool-cases (text == name)) [
  | inl same ↦ rw (← (eq_iff text name).0 same) here
  | inr differs ↦ other differs
]

Listed-all : (name : String) → Listed name
unfolding lookup dangerous_sequences
Listed-all name =
    Listed-from "exec" name (λ p. ground arith)
      (λ e1.
        Listed-from "file_write" name (λ p. ground arith)
          (λ e2.
            Listed-from "shell" name (λ p. ground arith)
              (λ e3.
                Listed-from "bash" name (λ p. ground arith)
                  (λ e4.
                    Listed-from "http_request" name (λ p. ground arith)
                      (λ e5 p. rw (e1, e2, e3, e4, e5))))))

any-false : {A : Type 0} (xs : List A) → any (λ x. false) xs ≡ false
any-false [] = refl
any-false (x ∷ xs) = any-false xs

find_dangerous-dangerous_of :
    (prev : List String) (o : Option (List String))
    → is_some (elim o as (λ _. Option String) [
      | none ↦ none
      | some dangerous ↦ find_dangerous dangerous prev
    ])
      ≡ is_some (find_dangerous (dangerous_of o) prev)
find_dangerous-dangerous_of prev none = sym (is_some-find_dangerous [] prev ∙ any-false prev)
find_dangerous-dangerous_of prev (some dangerous) = refl

-- An earlier tool is found exactly when one makes a pair of the table with the tool.
pub is_some-suspicious_prev :
    (name : String) (prev : List String)
    → is_some (suspicious_prev name prev) ≡ any (is_dangerous name) prev
unfolding suspicious_prev
is_some-suspicious_prev name prev =
    find_dangerous-dangerous_of prev (lookup name dangerous_sequences)
    ∙ is_some-find_dangerous (dangerous_of (lookup name dangerous_sequences)) prev
    ∙ ap (λ q. any q prev) (fun_ext (Listed-all name))
